-- ===== src/AddressSpace/Api/Reported.antt =====
-- Calls whose errors are all let through by the `CATCH` of src/exception.h, and spaces of
-- src/memory.cpp whose addresses can be lowered.
use rocdbgapi.Base.{
  ℕ, ◌≡◌, ◌≢◌, ◌⊎◌, refl, arith, List, [], ◌∷◌, inl, inr, true, false, Bool, Option, some, none,
}
use rocdbgapi.Base.Fields.{bit_and_zero}
use rocdbgapi.Status.{
  Result, ok, err, Status, fatal, catch_status, is_allowed, ◌>>=◌, throw_if, find_or,
}
use rocdbgapi.AddressSpace.{
  AddressSpace, base_space, generic_space, Aperture, lower, lower_apertures,
}

-- The last aperture takes every address, as the comment in `generic_address_space_t::lower` asks.
abbrev pub HasCatchAll : List Aperture → Type 0
HasCatchAll [] = ⊥
HasCatchAll (a ∷ rest) = ((a.mask ≡ 0) × (a.base ≡ 0)) ⊎ HasCatchAll rest

abbrev pub CanLower : AddressSpace → Type 0
CanLower (base_space _) = Unit
CanLower (generic_space _ apertures) = HasCatchAll apertures

lower_apertures_total :
    (apertures : List Aperture) (g : ℕ)
    → HasCatchAll apertures
    → (e : Status) → lower_apertures apertures g ≢ err e
unfolding lower_apertures
lower_apertures_total [] g h e = absurd h
lower_apertures_total (a ∷ rest) g (inl (m, z)) e = rw (m, z, bit_and_zero g) λ p. ground arith
lower_apertures_total (a ∷ rest) g (inr h) e = ground (arith, lower_apertures_total rest g h e)

-- Lowering never fails in such a space.
pub lower_total : (s : AddressSpace) (x : ℕ) → CanLower s → (e : Status) → lower s x ≢ err e
unfolding lower
lower_total (base_space b) x h e = λ p. cc
lower_total (generic_space _ apertures) x h e = lower_apertures_total apertures x h e

module _ (codes : List Status) where
  -- Every error that a call may throw is one that the entry point lets through.
  abbrev pub Reported {ℓ} : {A : Type ℓ} → Result A → Type ℓ
  Reported r = (e : Status) → r ≡ err e → is_allowed codes e ≡ true

  pub >>=-Reported {ℓ κ} :
      {A : Type ℓ} {B : Type κ} (m : Result A) (f : A → Result B)
      → Reported m
      → ((a : A) → m ≡ ok a → Reported (f a))
      → Reported (m >>= f)
  >>=-Reported (ok a) f h g e p = g a refl e p
  >>=-Reported (err s) f h g e p = h e (cc)

  pub throw_if-Reported :
      (b : Bool) (s : Status) → is_allowed codes s ≡ true → Reported (throw_if b s)
  throw_if-Reported true s h e p = ground (arith, h)
  throw_if-Reported false s h e p = cc

  pub find_or-Reported {ℓ} :
      {A : Type ℓ} (o : Option A) (s : Status) → is_allowed codes s ≡ true → Reported (find_or o s)
  find_or-Reported none s h e p = ground (arith, h)
  find_or-Reported (some a) s h e p = cc

  pub find_or-found {ℓ} :
      {A : Type ℓ} (o : Option A) (s : Status) {a : A} → find_or o s ≡ ok a → o ≡ some a
  find_or-found none s p = cc
  find_or-found (some a) s p = ground arith

  -- So its status is not the fatal one, where that is not among the codes.
  pub Reported-never_fatal {ℓ} :
      is_allowed codes fatal ≡ false
      → {A : Type ℓ} (r : Result A) → Reported r
      → catch_status codes r ≢ fatal
  unfolding catch_status
  Reported-never_fatal clean (ok a) h = λ p. cc
  Reported-never_fatal clean (err e) h = λ p. ground (arith, h e refl, clean)

-- A call fails only where one of its parts does.
pub >>=-total {ℓ κ} :
    {A : Type ℓ} {B : Type κ} (m : Result A) (f : A → Result B)
    → ((e : Status) → m ≢ err e)
    → ((a : A) (e : Status) → f a ≢ err e)
    → (e : Status) → (m >>= f) ≢ err e
>>=-total (ok a) f h g e = g a e
>>=-total (err s) f h g e = absurd (h s refl)
