-- ===== src/Yaml/Laws.antt =====
-- The results of functions that read YAML events, and what follows of their chains.
use dnsconfd.Prelude.{◌≡◌, refl, Bool, true, false, Option, none, some, Text, if◌then◌else◌}
use dnsconfd.Yaml.{Outcome, done, failed, exhausted, on_done, or_fail}

-- It ends, and what it accepts has the property.
abbrev pub Holds : {A : Type 0} → (A → Type 0) → Outcome A → Type 0
Holds P (done a) = P a
Holds P (failed e) = Unit
Holds P exhausted = ⊥

module _ {A B : Type 0} (P : A → Type 0) (Q : B → Type 0) where
  pub on_done-Holds :
      (o : Outcome A) (f : A → Outcome B)
      → Holds P o
      → ((a : A) → o ≡ done a → P a → Holds Q (f a))
      → Holds Q (on_done o f)
  on_done-Holds (done a) f h g = g a refl h
  on_done-Holds (failed e) f h g = tt
  on_done-Holds exhausted f h g = absurd h

module _ {A B : Type 0} (Q : B → Type 0) where
  pub or_fail-Holds :
      (message : Text) (o : Option A) (f : A → Outcome B)
      → ((a : A) → o ≡ some a → Holds Q (f a))
      → Holds Q (or_fail message o f)
  or_fail-Holds message none f g = tt
  or_fail-Holds message (some a) f g = g a refl

module _ {B : Type 0} (Q : B → Type 0) where
  pub if-Holds :
      (b : Bool) (x y : Outcome B)
      → (b ≡ true → Holds Q x)
      → (b ≡ false → Holds Q y)
      → Holds Q (if b then x else y)
  if-Holds true x y f g = f refl
  if-Holds false x y f g = g refl

module _ {A : Type 0} (P Q : A → Type 0) where
  pub weaken-Holds : (o : Outcome A) → ((a : A) → P a → Q a) → Holds P o → Holds Q o
  weaken-Holds (done a) f h = f a h
  weaken-Holds (failed e) f h = tt
  weaken-Holds exhausted f h = h

module _ {A B : Type 0} where
  pub on_done-eq-done :
      (o : Outcome A) (f : A → Outcome B) (b : B)
      → on_done o f ≡ done b
      → (a : A) × (o ≡ done a) × (f a ≡ done b)
  on_done-eq-done (done a) f b h = (a, refl, h)
  on_done-eq-done (failed e) f b h = cc
  on_done-eq-done exhausted f b h = cc
