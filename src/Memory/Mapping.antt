-- ===== src/Memory/Mapping.antt =====
-- src/memory/phys-mem.cpp: devices that `PhysMemBuilder` maps apart make a valid memory of zeros.
use besm.Prelude.{ℕ, ◌-◌, ◌<◌, true, Option, none, some, ◌≡◌, refl, ap, fun_ext, arith}
use besm.Memory.Allocator.{Host}
use besm.Memory.Range.{contains}
use besm.Memory.Ram.{Ram}
use besm.Memory.View
use besm.Memory.PhysMem
use besm.Memory.PhysMem.{Entry, PhysMem, scan}
use besm.Memory.Lookup.{IsEntry, IsDisjoint, scan-IsEntry}
use besm.Memory.Physical
use besm.Memory.Physical.{byte_at}
use besm.Memory.Builder.{Builder, empty, build}

-- Devices mapped apart, each made once, all zeros.
pub record IsBuilt (host : Host) (builder : Builder) : Type 0 where
  pub disjoint : IsDisjoint builder.devices
  pub held :
      (entry : Entry) → IsEntry entry builder.devices → entry.0.left_border < entry.0.right_border
  pub made : (entry : Entry) → IsEntry entry builder.devices → entry.1 < builder.count
  pub rams : (device : ℕ) → device < builder.count → View.IsValid host (builder.rams device)
  pub zeros : (device : ℕ) → device < builder.count → View.view (builder.rams device) ≡ λ x. 0
  pub once :
      (entry other : Entry)
      → IsEntry entry builder.devices
      → IsEntry other builder.devices
      → entry.1 ≡ other.1
      → entry ≡ other

pub empty-IsBuilt : (host : Host) (rams : ℕ → Ram) → IsBuilt host (empty rams)
unfolding empty IsEntry IsDisjoint
empty-IsBuilt host rams = record {
  disjoint = tt;
  held = λ entry at. absurd at;
  made = λ entry at. absurd at;
  rams = λ device below. absurd (omega arith);
  zeros = λ device below. absurd (omega arith);
  once = λ entry other at. absurd at;
}

pub nowhere :
    (position : ℕ) → contains (record { left_border = 0; right_border = 0 }) position ≡ true → ⊥
unfolding contains
nowhere position h = ground arith

pub zero_byte :
    (host : Host) (builder : Builder)
    → IsBuilt host builder
    → (x : ℕ) (entry : Option Entry) → scan x builder.devices ≡ entry
    → byte_at builder.rams x entry ≡ 0
unfolding byte_at
zero_byte host builder built x none e = refl
zero_byte host builder built x (some (range, device)) e =
    ap (λ (f : ℕ → ℕ). f (x - range.left_border))
      (built.zeros device
        (built.made (range, device) (scan-IsEntry x builder.devices (range, device) e).0))

-- What is built is valid, and holds zeros.
pub build-IsValid :
    (host : Host) (builder : Builder)
    → IsBuilt host builder
    → Physical.IsValid host (build builder) × (Physical.view (build builder) ≡ λ x. 0)
unfolding build PhysMem.new Physical.view contains
build-IsValid host builder built = (
  record {
    coherent = record {
      disjoint = built.disjoint;
      last = λ position h. absurd (nowhere position h);
    };
    rams = λ entry at. built.rams entry.1 (built.made entry at);
    once = built.once;
  },
  fun_ext (λ x. zero_byte host builder built x (scan x builder.devices) refl),
)
