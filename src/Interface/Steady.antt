-- ===== src/Interface/Steady.antt =====
-- The relays under the single handlers of the requests.
use blueberry_irrigation_sys.Base.{
  ℕ, ◌+◌, ◌<◌, ◌≡◌, inr, refl, sym, subst, ap, ◌∙◌, not, ◌==◌, if_intro, if◌then◌else◌, set_at,
  arith,
}
use blueberry_irrigation_sys.World.{write, digital_write}
use blueberry_irrigation_sys.Device.{Board, on_world, relay}
use blueberry_irrigation_sys.Device
use blueberry_irrigation_sys.Device.Steps.{Steps, here, toggled, performed, IsSound}
use blueberry_irrigation_sys.ControlFlow.{Plant, sensor_flow_update, sensor_pressure_update}
use blueberry_irrigation_sys.ControlFlow
use blueberry_irrigation_sys.ControlFlow.Wiring.{Evolves, IsSafe, Evolves-IsSafe}
use blueberry_irrigation_sys.ControlSafety
use blueberry_irrigation_sys.Irrigation.{Irrigation}
use blueberry_irrigation_sys.Internet.{Internet}
use blueberry_irrigation_sys.Internet as Net
use blueberry_irrigation_sys.Internet.Quiet.{
  Quietly, nothing, IsQuietStep, Quietly-Steps, send_world,
}
use blueberry_irrigation_sys.Firmware.{
  Firmware, on_irrigation, on_the_board, on_the_world, on_internet, body, set_body,
}
use blueberry_irrigation_sys.Interface.{
  sized, reset, device_toggle, device_time_switch_minimum, ping,
}

-- The plant of the firmware is safe.
pub record IsSteady (m : Firmware) : Type 0 where
  pub safe : IsSafe m.plant

abbrev pub Keeps : (Firmware → Firmware) → Type 0
Keeps f = (m : Firmware) → IsSteady m → IsSteady (f m)

pub evolves : (m t : Firmware) → Evolves m.plant t.plant → IsSteady m → IsSteady t
evolves m t e s = record { safe = Evolves-IsSafe m.plant t.plant e s.safe }

-- Steps of the board alone.
pub stepped :
    (m : Firmware) (t : Board) → Steps m.board t → IsSteady m → IsSteady (on_the_board (λ b. t) m)
stepped m t r s =
    evolves m (on_the_board (λ b. t) m)
      (record { steps = r; device = λ i. refl; sensor = λ i. refl }) s

pub on_internet-IsSteady : (f : Internet → Internet) → IsQuietStep f → Keeps (on_internet f)
on_internet-IsSteady f q m s =
    evolves m (on_internet f m)
      (record {
        steps = Quietly-Steps m.board (q (record m.internet { world = m.world }));
        device = λ i. refl;
        sensor = λ i. refl;
      })
      s

pub send-IsQuietStep : IsQuietStep Net.send
send-IsQuietStep i = subst (Quietly i.world) (sym (send_world i)) nothing

-- The minimum time of a device has no part in the state of the relays.
pub minimum-IsSound :
    (b : Board) (j v : ℕ)
    → IsSound b
    → IsSound (record b {
      devices =
          λ i. if i == j then record (b.devices j) { time_switch_minimum = v } else b.devices i;
    })
minimum-IsSound b j v s = record {
  wired = record {
    pins = λ i h. ground (arith, s.wired.pins i h);
    plain = λ i h ne. ground (arith, s.wired.plain i h ne);
    click = ground (arith, s.wired.click);
    click_off = s.wired.click_off;
    extended = s.wired.extended;
  };
  match = record {
    plain = λ i h ne. ground (arith, s.match.plain i h ne);
    at_rest = s.match.at_rest;
    held = λ h. ground (arith, s.match.held h);
  };
  coils = s.coils;
}

pub sized-IsSteady :
    (n : ℕ) (handler : Firmware → Firmware) (m : Firmware)
    → (IsSteady m → IsSteady (handler m))
    → IsSteady m
    → IsSteady (sized n handler m)
sized-IsSteady n handler m h s = if_intro IsSteady (not (1 + n == m.internet.packet.size)) s (h s)

pub reset-IsSteady : Keeps reset
unfolding reset ControlSafety.reset
reset-IsSteady m s =
    evolves m (on_the_world (write 48 0) m)
      (record {
        steps = performed here (digital_write 48 0) (inr (omega arith));
        device = λ i. refl;
        sensor = λ i. refl;
      })
      s

pub device_toggle-IsSteady :
    (m : Firmware) → body m 1 < 15 → IsSteady m → IsSteady (device_toggle m)
unfolding device_toggle
device_toggle-IsSteady m h s =
    stepped m (Device.toggle m.board (body m 1) (body m 2)) (toggled here (body m 1) (body m 2) h) s

pub device_time_switch_minimum-IsSteady : Keeps device_time_switch_minimum
unfolding device_time_switch_minimum
device_time_switch_minimum-IsSteady m s = record {
  safe = record {
    planned = record { device = s.safe.planned.device; sensor = s.safe.planned.sensor };
    sound = minimum-IsSound m.board (body m 1) (body m 2) s.safe.sound;
  };
}

-- Handlers that change no device and no wiring.
pub settings-IsSteady :
    (m t : Firmware) → m.board ≡ t.board → m.flows ≡ t.flows → IsSteady m → IsSteady t
settings-IsSteady m t b f s = record {
  safe = record {
    planned = record {
      device = λ i h.
          ap (λ (x : ℕ → ControlFlow.ControlFlow). (x i).device) (sym f)
          ∙ s.safe.planned.device i h;
      sensor = λ i h.
          ap (λ (x : ℕ → ControlFlow.ControlFlow). (x i).sensor_flow) (sym f)
          ∙ s.safe.planned.sensor i h;
    };
    sound = subst IsSound b s.safe.sound;
  };
}

pub irrigation-IsSteady :
    (f : Irrigation → Irrigation) (m : Firmware)
    → Evolves m.plant (f m.irrigation).plant
    → IsSteady m
    → IsSteady (on_irrigation f m)
irrigation-IsSteady f m e s = evolves m (on_irrigation f m) e s

pub ping-IsSteady : Keeps ping
unfolding ping
ping-IsSteady m s =
    if_intro IsSteady _
      (on_internet-IsSteady Net.send send-IsQuietStep
        (set_body (set_at (body m) 1 20) m.internet.packet.size m) (record { safe = s.safe }))
      s
