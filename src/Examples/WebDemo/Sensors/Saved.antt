-- ===== src/Examples/WebDemo/Sensors/Saved.antt =====
-- load_config of cc26xx-web-demo.c takes back what save_config wrote.
use nsdscourse.Base.{
  ℕ, ◌≡◌, refl, ap, ap₂, sym, ◌∙◌, Bool-cases, inl, inr, true, false, some, List, [], ◌∷◌, map,
  ◌==◌, arith, All,
}
use nsdscourse.Examples.WebDemo.Sensors.{
  Reading, Config, Flash, Demo, has_bit, load_reading, saved_config, write_config, save_config,
  loaded, load_config,
}
use nsdscourse.Examples.WebDemo.Sensors.Bits.{Distinct, has_bit-zero, has_bit-publish}

All-always : (rs : List Reading) → All (λ r. has_bit 0 r.type ≡ false) rs
All-always [] = tt
All-always (r ∷ rs) = (has_bit-zero r.type, All-always rs)

abbrev head : ℕ → List ℕ → ℕ
head d [] = d
head d (x ∷ xs) = x

abbrev tail : List ℕ → List ℕ
tail [] = []
tail (x ∷ xs) = xs

cons-nil : {x : ℕ} {xs : List ℕ} → ¬ (x ∷ xs ≡ [])
cons-nil e = ground (arith, e)

load_reading-publish :
    (bitmap : ℕ) (r : Reading) → (load_reading bitmap r).publish ≡ has_bit bitmap r.type
load_reading-publish bitmap r = elim (Bool-cases (has_bit bitmap r.type)) [
  | inl e ↦ rw e refl
  | inr e ↦ rw e refl
]

load-publish :
    (bitmap : ℕ) (rs rs' : List Reading)
    → map (λ r. r.type) rs' ≡ map (λ r. r.type) rs
    → All (λ r. has_bit bitmap r.type ≡ r.publish) rs
    → map (λ r. r.publish) (map (load_reading bitmap) rs') ≡ map (λ r. r.publish) rs
load-publish bitmap [] [] e h = refl
load-publish bitmap [] (s ∷ rs') e h = absurd (cons-nil e)
load-publish bitmap (r ∷ rs) [] e h = absurd (cons-nil (sym e))
load-publish bitmap (r ∷ rs) (s ∷ rs') e h =
    let first : s.type ≡ r.type = ap (head 0) e in
    let rest = load-publish bitmap rs rs' (ap tail e) h.1 in
    ap₂ (λ b bs. b ∷ bs) (load_reading-publish bitmap s ∙ ap (has_bit bitmap) first ∙ h.0) rest

module _ {O F : Type 0} (size : ℕ) (flash : Flash O F) where
  save_config-written :
      (d : Demo O F)
      → flash.opened d.flash ≡ true
      → (flash.erase d.flash).0 ≡ true
      → save_config size flash d ≡ write_config size flash (flash.erase d.flash).1 d
  unfolding save_config
  save_config-written d opens erases = rw (opens, erases) refl

  load_config-read :
      (d : Demo O F) (c : Config O)
      → flash.opened d.flash ≡ true
      → flash.read d.flash ≡ some c
      → load_config size flash d ≡ loaded size flash c d
  unfolding load_config
  load_config-read d c opens reads = rw (opens, reads) refl

  loaded-saved :
      (d d' : Demo O F)
      → loaded size flash (saved_config size d) d' ≡ record d' {
        config = saved_config size d;
        readings = map (load_reading (saved_config size d).sensors_bitmap) d'.readings;
      }
  loaded-saved d d' = let same : (size == size) ≡ true = ground arith in rw same refl

  -- What is saved with success and then loaded, by the same program or after a restart, is the same
  -- configuration, and each sensor is published as it was: if what is written with success to the memory
  -- is what is read from it, it can be opened, the types of the sensors differ and their list is the same.
  pub load_config-save_config :
      (d d' : Demo O F)
      → ((c : Config O) (f : F)
          → (flash.write c f).0 ≡ true
          → flash.read (flash.write c f).1 ≡ some c)
      → flash.opened d.flash ≡ true
      → (flash.erase d.flash).0 ≡ true
      → (flash.write (saved_config size d) (flash.erase d.flash).1).0 ≡ true
      → flash.opened d'.flash ≡ true
      → d'.flash ≡ (save_config size flash d).flash
      → map (λ r. r.type) d'.readings ≡ map (λ r. r.type) d.readings
      → Distinct d.readings
      → ((load_config size flash d').config ≡ (save_config size flash d).config)
        × (map (λ r. r.publish) (load_config size flash d').readings
            ≡ map (λ r. r.publish) d.readings)
  load_config-save_config d d' law opens erases writes reopens same types distinct =
      let saved = save_config-written d opens erases in
      let reads =
        ap flash.read (same ∙ ap (λ (e : Demo O F). e.flash) saved)
        ∙ law (saved_config size d) _ writes in
      let loads = load_config-read d' (saved_config size d) reopens reads ∙ loaded-saved d d' in
      let bits = has_bit-publish d.readings 0 distinct (All-always d.readings) in
      (
        ap (λ (e : Demo O F). e.config) (loads) ∙ sym (ap (λ (e : Demo O F). e.config) saved),
        ap (λ (e : Demo O F). map (λ r. r.publish) e.readings) loads
            ∙ load-publish (saved_config size d).sensors_bitmap d.readings d'.readings types bits,
      )
