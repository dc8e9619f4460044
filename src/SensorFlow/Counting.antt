-- ===== src/SensorFlow/Counting.antt =====
-- The pulses of arduino_client/src/sensor_flow.cpp against interrupts that come at any time.
use blueberry_irrigation_sys.Base.{
  ℕ, ◌+◌, ◌<◌, ◌≡◌, ◌≢◌, refl, sym, subst, ap, ◌∙◌, Bool, true, false, List, [], ◌∷◌, ◌==◌,
  if◌then◌else◌, u32, arith, ℕ_discrete,
}
use blueberry_irrigation_sys.World.{World, is_attached}
use blueberry_irrigation_sys.SensorFlow.{
  FlowSensors, interrupt, arrive, arrives, detach, add, clear, pulses_total_set, collect_among,
}

-- A pulse, or a collection of a sensor's pulses with pulses that come after each of the first three
-- statements.
pub data Event : Type 0 where
  pulse : ℕ → Event
  collection : ℕ → (ℕ → List ℕ) → Event

abbrev pub step : Event → World × FlowSensors → World × FlowSensors
step (pulse i) ws = arrive i ws
step (collection i pulses) ws = collect_among pulses i ws

abbrev pub run : List Event → World × FlowSensors → World × FlowSensors
run [] ws = ws
run (e ∷ es) ws = run es (step e ws)

-- All the pulses of a sensor that the state accounts for, collected or not.
abbrev pub counted : FlowSensors → ℕ → ℕ
counted s i = u32 ((s.sensors i).pulses_total + (s.sensors i).pulses_interrupt)

abbrev pub occurs : ℕ → List ℕ → ℕ
occurs i [] = 0
occurs i (j ∷ js) = (if j == i then 1 else 0) + occurs i js

abbrev pub occurs_among : ℕ → (ℕ → List ℕ) → ℕ
occurs_among i pulses = occurs i (pulses 0) + occurs i (pulses 1) + occurs i (pulses 2)

-- The pulses of sensor `i` that do not fall into its own collection.
abbrev pub taken : ℕ → Event → ℕ
taken i (pulse j) = if j == i then 1 else 0
taken i (collection j pulses) = if j == i then 0 else occurs_among i pulses

abbrev pub all_taken : ℕ → List Event → ℕ
all_taken i [] = 0
all_taken i (e ∷ es) = taken i e + all_taken i es

-- How many pulses of sensor `i` wait after an event, of which `n` waited before.
abbrev pub waiting : ℕ → ℕ → Event → ℕ
waiting i n (pulse j) = n + (if j == i then 1 else 0)
waiting i n (collection j pulses) = if j == i then 0 else n + occurs_among i pulses

-- Fewer than 65536 pulses of sensor `i` come between two of its collections.
abbrev pub IsPaced : ℕ → ℕ → List Event → Type 0
IsPaced i n [] = Unit
IsPaced i n (e ∷ es) = waiting i n e < 65536 × IsPaced i (waiting i n e) es

-- Sensor `i` is attached, to an interrupt that no other sensor has.
pub record IsWired (i : ℕ) (ws : World × FlowSensors) : Type 0 where
  pub attached : is_attached (ws.1.sensors i).pin_interrupt ws.0.trace ≡ true
  pub own : (j : ℕ) → j ≢ i → (ws.1.sensors j).pin_interrupt ≢ (ws.1.sensors i).pin_interrupt

-- What pulses leave of the sensors.
record Arrived (i : ℕ) (ps : List ℕ) (ws t : World × FlowSensors) : Type 0 where
  trace : t.0.trace ≡ ws.0.trace
  pins : (j : ℕ) → (t.1.sensors j).pin_interrupt ≡ (ws.1.sensors j).pin_interrupt
  total : (t.1.sensors i).pulses_total ≡ (ws.1.sensors i).pulses_total
  on :
      is_attached (ws.1.sensors i).pin_interrupt ws.0.trace ≡ true
      → (ws.1.sensors i).pulses_interrupt + occurs i ps < 65536
      → (t.1.sensors i).pulses_interrupt ≡ (ws.1.sensors i).pulses_interrupt + occurs i ps
  off :
      is_attached (ws.1.sensors i).pin_interrupt ws.0.trace ≡ false
      → (t.1.sensors i).pulses_interrupt ≡ (ws.1.sensors i).pulses_interrupt

arrive-Arrived : (i j : ℕ) (ws : World × FlowSensors) → Arrived i (j ∷ []) ws (arrive j ws)
unfolding interrupt
arrive-Arrived i j ws = record {
  trace = refl;
  pins = λ k. ground arith;
  total = ground arith;
  on = λ a room. ground (arith, a, room);
  off = λ a. ground (arith, a);
}

arrives-Arrived : (i : ℕ) (ps : List ℕ) (ws : World × FlowSensors) → Arrived i ps ws (arrives ps ws)
arrives-Arrived i [] ws = record {
  trace = refl;
  pins = λ k. refl;
  total = refl;
  on = λ a room. omega arith;
  off = λ a. refl;
}
arrives-Arrived i (j ∷ ps) ws =
    let a = arrive-Arrived i j ws in
    let b = arrives-Arrived i ps (arrive j ws) in
    let same : is_attached ((arrive j ws).1.sensors i).pin_interrupt (arrive j ws).0.trace
        ≡ is_attached (ws.1.sensors i).pin_interrupt ws.0.trace =
      ap (λ n. is_attached n ws.0.trace) (a.pins i) in
    record {
      trace = b.trace;
      pins = λ k. b.pins k ∙ a.pins k;
      total = b.total ∙ a.total;
      on = λ on room.
          let one = a.on on (omega (arith, room)) in
          let rest = b.on (same ∙ on) (omega (arith, room, one)) in omega (arith, one, rest);
      off = λ off. b.off (same ∙ off) ∙ a.off off;
    }

-- Whether the interrupt of a sensor is attached.
abbrev attached_at : ℕ → World × FlowSensors → Bool
attached_at k ws = is_attached (ws.1.sensors k).pin_interrupt ws.0.trace

arrives_attached :
    (k : ℕ) (ps : List ℕ) (ws : World × FlowSensors)
    → attached_at k (arrives ps ws) ≡ attached_at k ws
arrives_attached k ps ws =
    let a = arrives-Arrived k ps ws in
    ap (λ n. is_attached n (arrives ps ws).0.trace) (a.pins k)
    ∙ ap (is_attached (ws.1.sensors k).pin_interrupt) a.trace

add_attached : (k i : ℕ) (ws : World × FlowSensors) → attached_at k (add i ws) ≡ attached_at k ws
unfolding pulses_total_set
add_attached k i ws = ap (λ n. is_attached n ws.0.trace) (ground arith)

clear_attached :
    (k i : ℕ) (ws : World × FlowSensors) → attached_at k (clear i ws) ≡ attached_at k ws
clear_attached k i ws = ap (λ n. is_attached n ws.0.trace) (ground arith)

detach_own : (i : ℕ) (ws : World × FlowSensors) → attached_at i (detach i ws) ≡ false
detach_own i ws = ground arith

detach_other :
    (k i : ℕ) (ws : World × FlowSensors)
    → (ws.1.sensors i).pin_interrupt ≢ (ws.1.sensors k).pin_interrupt
    → attached_at k (detach i ws) ≡ attached_at k ws
detach_other k i ws ne = ground (arith, ne)

-- What a collection of sensor `i` does to sensor `k`.
record Collected (k i : ℕ) (pulses : ℕ → List ℕ) (ws t : World × FlowSensors) : Type 0 where
  pins : (j : ℕ) → (t.1.sensors j).pin_interrupt ≡ (ws.1.sensors j).pin_interrupt
  own :
      k ≡ i
      → (attached_at k t ≡ true)
        × ((t.1.sensors k).pulses_total ≡ counted ws.1 k)
        × ((t.1.sensors k).pulses_interrupt ≡ 0)
  other :
      (ws.1.sensors i).pin_interrupt ≢ (ws.1.sensors k).pin_interrupt
      → k ≢ i
      → attached_at k ws ≡ true
      → (ws.1.sensors k).pulses_interrupt + occurs_among k pulses < 65536
      → (attached_at k t ≡ true)
        × ((t.1.sensors k).pulses_total ≡ (ws.1.sensors k).pulses_total)
        × ((t.1.sensors k).pulses_interrupt
            ≡ (ws.1.sensors k).pulses_interrupt + occurs_among k pulses)

collect_among-Collected :
    (k i : ℕ) (pulses : ℕ → List ℕ) (ws : World × FlowSensors)
    → Collected k i pulses ws (collect_among pulses i ws)
unfolding collect_among pulses_total_set
collect_among-Collected k i pulses ws =
    let d = detach i ws in
    let a = arrives (pulses 0) d in
    let b = arrives (pulses 1) (add i a) in
    let c = arrives (pulses 2) (clear i b) in
    let one = arrives-Arrived k (pulses 0) d in
    let two = arrives-Arrived k (pulses 1) (add i a) in
    let three = arrives-Arrived k (pulses 2) (clear i b) in
    let at_a = arrives_attached k (pulses 0) d in
    let at_add = add_attached k i a ∙ at_a in
    let at_b = arrives_attached k (pulses 1) (add i a) ∙ at_add in
    let at_clear = clear_attached k i b ∙ at_b in
    let at_c = arrives_attached k (pulses 2) (clear i b) ∙ at_clear in
    record {
      pins = λ j. ground (arith, one.pins j, two.pins j, three.pins j);
      own = λ e.
          let off : attached_at k d ≡ false =
            subst (λ x. attached_at x d ≡ false) (sym e) (detach_own i ws) in
          let off1 = one.off off in
          let off2 = two.off (at_add ∙ off) in
          let off3 = three.off (at_clear ∙ off) in
          (
            ground (arith, e),
            ground (arith, e, one.total, two.total, three.total, off1),
            ground (arith, e, off3),
          );
      other = λ ne apart on room.
          let still = detach_other k i ws ne ∙ on in
          let n1 = one.on still (omega (arith, room)) in
          let add_same : ((add i a).1.sensors k).pulses_interrupt
              ≡ (a.1.sensors k).pulses_interrupt =
            ground (arith, apart) in
          let n2 = two.on (at_add ∙ still) (omega (arith, room, n1, add_same)) in
          let clear_same : ((clear i b).1.sensors k).pulses_interrupt
              ≡ (b.1.sensors k).pulses_interrupt =
            ground (arith, apart) in
          let n3 =
            three.on (at_clear ∙ still) (omega (arith, room, n1, n2, add_same, clear_same)) in
          (
            ground (arith, at_c, still),
            ground (arith, apart, one.total, two.total, three.total),
            omega (arith, n1, n2, n3, add_same, clear_same),
          );
    }

-- What an event does to a sensor of which `n` pulses waited.
Steps : ℕ → ℕ → Event → World × FlowSensors → Type 0
Steps k n e ws =
    IsWired k (step e ws)
    × (((step e ws).1.sensors k).pulses_interrupt ≡ waiting k n e)
    × (counted (step e ws).1 k ≡ u32 (counted ws.1 k + taken k e))

wired_lem :
    (k : ℕ) (ws t : World × FlowSensors)
    → ((j : ℕ) → (t.1.sensors j).pin_interrupt ≡ (ws.1.sensors j).pin_interrupt)
    → attached_at k t ≡ true
    → IsWired k ws
    → IsWired k t
wired_lem k ws t pins on w = record {
  attached = on;
  own = λ j ne e. w.own j ne (sym (pins j) ∙ e ∙ pins k);
}

step-Steps :
    (k n : ℕ) (e : Event) (ws : World × FlowSensors)
    → IsWired k ws
    → (ws.1.sensors k).pulses_interrupt ≡ n
    → waiting k n e < 65536
    → Steps k n e ws
unfolding Steps
step-Steps k n (pulse j) ws w e room =
    let a = arrive-Arrived k j ws in
    let on = a.on w.attached (omega (arith, e, room)) in
    (
      wired_lem k ws (arrive j ws) a.pins
          (ap (λ p. is_attached p ws.0.trace) (a.pins k) ∙ w.attached) w,
      omega (arith, on, e),
      omega (arith, on, a.total),
    )
step-Steps k n (collection j pulses) ws w e room =
    let c = collect_among-Collected k j pulses ws in
    let t = collect_among pulses j ws in
    elim (ℕ_discrete j k) [
      | yes same ↦
          let (on, total, none_left) = c.own (sym same) in
          (
            wired_lem k ws t c.pins on w,
            ground (arith, same, none_left),
            ground (arith, same, none_left, total),
          )
      | no apart ↦
          let (on, total, left) =
            c.other (w.own j apart) (λ x. apart (sym x)) w.attached
              (ground (arith, e, room, apart)) in
          (
            wired_lem k ws t c.pins on w,
            ground (arith, apart, left, e),
            ground (arith, apart, left, total),
          )
    ]

-- Whatever the order of pulses and of collections of the five sensors, with pulses of any sensor after
-- each of the first three statements of a collection: the sensor stays attached, and what it has
-- collected and what waits are together, on 32 bits, what they were at the start and all its pulses
-- since, but for those in its own collections, while it is detached. The sensor has an interrupt of its
-- own, which is attached at the start, and fewer than 65536 of its pulses come between two of its
-- collections.
pub run-counted :
    (es : List Event) (k : ℕ) (ws : World × FlowSensors)
    → IsWired k ws
    → IsPaced k (ws.1.sensors k).pulses_interrupt es
    → IsWired k (run es ws) × (counted (run es ws).1 k ≡ u32 (counted ws.1 k + all_taken k es))
unfolding Steps
run-counted [] k ws w paced = (w, omega arith)
run-counted (e ∷ es) k ws w (room, paced) =
    let (w', waits, more) = step-Steps k (ws.1.sensors k).pulses_interrupt e ws w refl room in
    let (still, rest) =
      run-counted es k (step e ws) w' (subst (λ n. IsPaced k n es) (sym waits) paced) in
    (still, omega (arith, more, rest))
