-- ===== src/Lock/Refinement.antt =====
-- The lock table refines a table of flags: `set` adds flags at one key, `reset` takes them away there,
-- and every other key is untouched.
use cic_stack_v.Prelude.{
  ℕ, ◌≡◌, false, Option, List, [], ◌∷◌, arith, Option-cases, inl, inr, bit_or, if◌then◌else◌, ◌==◌,
  ◌&&◌, Bool-cases, ◌∙◌,
}
use cic_stack_v.Bits.{clear}
use cic_stack_v.Store.Rows.{Text}
use cic_stack_v.Store.Session.{given}
use cic_stack_v.Store.{Worker}
use cic_stack_v.Lock.{row, set, reset}
use cic_stack_v.Lock.Effect.{
  flags_at, IsKeyed, Apart, after_set, set-given, flags_at-set_self, flags_at-set-Apart,
  after_set-IsKeyed,
}
use cic_stack_v.Lock.Reset.{
  after_reset, reset-given, reset-given_missing, flags_at-reset_self, flags_at-reset-Apart,
  after_reset-IsKeyed, after_reset-missing,
}

pub data Op : Type 0 where
  -- chain, flags, address, transaction hash
  sets : Text → ℕ → Text → Option Text → Op
  -- chain, flags, address
  resets : Text → ℕ → Text → Op

pub run : List Op → Worker → Worker
run [] w = w
run (sets c f a h ∷ ops) w = run ops (set c f a given h w).1
run (resets c f a ∷ ops) w = run ops (reset c f a given w).1

-- The specification: flags by chain and address.
abbrev pub Switches : Type 0
Switches = Text → Text → ℕ

abbrev pub at : Text → Text → (ℕ → ℕ) → Switches → Switches
at chain address f s c a = if (chain == c) && (address == a) then f (s c a) else s c a

pub spec : List Op → Switches → Switches
spec [] s = s
spec (sets c f a h ∷ ops) s = spec ops (at c a (λ old. bit_or old f) s)
spec (resets c f a ∷ ops) s = spec ops (at c a (λ old. clear old f) s)

-- A worker whose session is the caller's, and whose lock table shows the flags of `s`.
pub record Shows (s : Switches) (w : Worker) : Type 0 where
  pub foreign : w.registered ≡ false
  pub keyed : IsKeyed w.work.locks
  pub shows : (c a : Text) → flags_at c a w.work ≡ s c a

keys-Apart :
    (chain address c a : Text) → ((chain == c) && (address == a)) ≡ false → Apart chain address c a
keys-Apart chain address c a h = ground arith

module _ (s : Switches) (w : Worker) (chain : Text) (f : ℕ) (address : Text) (v : Shows s w) where
  shows-set :
      (h : Option Text) (c a : Text)
      → flags_at c a (after_set chain f address h w.work)
        ≡ at chain address (λ old. bit_or old f) s c a
  shows-set h c a = elim (Bool-cases ((chain == c) && (address == a))) [
    | inl same ↦ ground (arith, flags_at-set_self chain f address h w.work, v.shows chain address)
    | inr apart ↦
        rw
          (
            apart,
            flags_at-set-Apart chain f address h w.work c a (keys-Apart chain address c a apart),
          )
          (v.shows c a)
  ]

  set-Shows :
      (h : Option Text)
      → Shows (at chain address (λ old. bit_or old f) s) (set chain f address given h w).1
  set-Shows h = rw (set-given chain f address h w v.foreign) (record {
    foreign = v.foreign;
    keyed = after_set-IsKeyed chain f address h w.work v.keyed;
    shows = shows-set h;
  })

  shows-reset :
      (c a : Text)
      → flags_at c a (after_reset chain f address w.work)
        ≡ at chain address (λ old. clear old f) s c a
  shows-reset c a = elim (Bool-cases ((chain == c) && (address == a))) [
    | inl same ↦
        ground (arith, flags_at-reset_self chain f address w.work v.keyed, v.shows chain address)
    | inr apart ↦
        rw
          (
            apart,
            flags_at-reset-Apart chain f address w.work c a (keys-Apart chain address c a apart),
          )
          (v.shows c a)
  ]

  reset-Shows : Shows (at chain address (λ old. clear old f) s) (reset chain f address given w).1
  reset-Shows = elim (Option-cases (row chain address w.work)) [
    | inl e ↦ rw (reset-given_missing chain f address w v.foreign e) (record {
      foreign = v.foreign;
      keyed = v.keyed;
      shows = λ c a. after_reset-missing chain f address w.work e c a ∙ shows-reset c a;
    })
    | inr (r, e) ↦ rw (reset-given chain f address w r v.foreign e) (record {
      foreign = v.foreign;
      keyed = after_reset-IsKeyed chain f address w.work v.keyed;
      shows = shows-reset;
    })
  ]

-- After any history of `set` and `reset`, from a table with one entry at most for each key, the table
-- has one entry at most for each key and shows exactly the flags of the specification: those that
-- were set there and not reset since. STICKY is a flag like any other, which a reset takes away, other
-- than enum.py and the manual say.
pub run-Shows :
    (ops : List Op) (s : Switches) (w : Worker) → Shows s w → Shows (spec ops s) (run ops w)
unfolding run spec
run-Shows [] s w v = v
run-Shows (sets c f a h ∷ ops) s w v = run-Shows ops _ _ (set-Shows s w c f a v h)
run-Shows (resets c f a ∷ ops) s w v = run-Shows ops _ _ (reset-Shows s w c f a v)
