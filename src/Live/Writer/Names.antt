-- ===== src/Live/Writer/Names.antt =====
-- The names of rotated files: `_next_rotated_path` of oad_parser/live/writer.py finds a name that is not
-- taken if there is one.
use oad_parser.Common.{
  ℕ, zero, suc, ◌+◌, ◌≡◌, refl, ap, arith, Bool, true, false, not, List, [], ◌∷◌, ◌++◌, All, Result,
  ok, err, if_intro, if◌then◌else◌, subst,
}
use oad_parser.Common.Text.{Text}
use oad_parser.Live.Writer.Output.{allocate_loop, allocate}

-- The candidates with an index, from `index` on.
unfoldable pub candidates : (ℕ → Text) → ℕ → ℕ → List Text
candidates candidate zero index = []
candidates candidate (suc rounds) index = candidate index ∷ candidates candidate rounds (index + 1)

module _ (exists : Text → Bool) where
  abbrev pub IsTaken : Text → Type 0
  IsTaken name = exists name ≡ true

  -- What a search among names comes to: the first free one, or an error if all are taken.
  abbrev pub Allocated : List Text → Result Text → Type 0
  Allocated names (ok name) =
      (taken : List Text) × (rest : List Text) × (names ≡ taken ++ (name ∷ rest))
      × All IsTaken taken
      × (exists name ≡ false)
  Allocated names (err raised) = All IsTaken names

  Allocated-cons :
      (name : Text) (names : List Text) (r : Result Text)
      → IsTaken name
      → Allocated names r
      → Allocated (name ∷ names) r
  Allocated-cons name names (ok found) used (taken, rest, e, all, free) =
      (name ∷ taken, rest, ap (λ ns. name ∷ ns) e, (used, all), free)
  Allocated-cons name names (err raised) used all = (used, all)

  -- One test of a candidate.
  Allocated-test :
      (name : Text) (names : List Text) (rest : Result Text)
      → Allocated names rest
      → Allocated (name ∷ names) (if not (exists name) then ok name else rest)
  Allocated-test name names rest a =
      if_intro (Allocated (name ∷ names)) (not (exists name)) _ _
        (λ free. ([], names, refl, tt, ground (arith, free)))
        λ used. Allocated-cons name names rest (ground (arith, used)) a

  allocate_loop-Allocated :
      (candidate : ℕ → Text) (rounds index : ℕ)
      → Allocated (candidates candidate rounds index) (allocate_loop exists candidate rounds index)
  unfolding allocate_loop candidates
  allocate_loop-Allocated candidate zero index = tt
  allocate_loop-Allocated candidate (suc rounds) index =
      Allocated-test (candidate index) _ _ (allocate_loop-Allocated candidate rounds (index + 1))

  -- The search of `_next_rotated_path` takes the first name that no file has, of the name with the
  -- time and then those with an index from 1 to 9999; it raises only if all of them are taken.
  pub allocate-Allocated :
      (first : Text) (candidate : ℕ → Text)
      → Allocated (first ∷ candidates candidate 9999 1) (allocate exists first candidate)
  unfolding allocate
  allocate-Allocated first candidate =
      Allocated-test first _ _ (allocate_loop-Allocated candidate 9999 1)

  pub allocate-free :
      (first : Text) (candidate : ℕ → Text) (name : Text)
      → allocate exists first candidate ≡ ok name
      → exists name ≡ false
  allocate-free first candidate name e =
      let a =
        subst (Allocated (first ∷ candidates candidate 9999 1)) e
          (allocate-Allocated first candidate) in
      a.4
