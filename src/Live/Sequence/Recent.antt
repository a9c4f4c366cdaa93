-- ===== src/Live/Sequence/Recent.antt =====
-- The windows of `_apply_duplicate_alert` of oad_parser/live/pipeline.py hold exactly what was seen
-- recently, while time does not go back.
use oad_parser.Common.{
  ◌≡◌, refl, sym, subst, ap, ap₂, ◌∙◌, true, false, List, [], ◌∷◌, ◌++◌, if◌then◌else◌, if_intro,
  Bool-cases, inl, inr, All, append-nil,
}
use oad_parser.Common.Text.{Text}
use oad_parser.Common.Value.{Python}
use oad_parser.Detect.Record.{Floats}
use oad_parser.Live.Alerts.Config.{Numbers}
use oad_parser.Live.Alerts.Disabled.{All-append}
use oad_parser.Live.Sequence.State.{Datetimes}
use oad_parser.Live.Sequence.Windows.{drop_stale, next_window}

-- `<` between floats that are numbers, and the subtraction of the window from them.
pub record IsOrdered (fs : Floats) (seconds : fs.Float) : Type 0 where
  pub below : (t a b : fs.Float) → fs.lt b a ≡ false → fs.lt t a ≡ true → fs.lt t b ≡ true
  pub above : (t u c : fs.Float) → fs.lt u t ≡ false → fs.lt u c ≡ true → fs.lt t c ≡ true
  pub same_order :
      (a b : fs.Float) → fs.lt b a ≡ false → fs.lt (fs.sub b seconds) (fs.sub a seconds) ≡ false

module _ (py : Python) (fs : Floats) (n : Numbers fs) (dt : Datetimes fs) (seconds : fs.Float) where
  abbrev Sighting : Type 0
  Sighting = fs.Float × Text

  -- The window of a key after its sightings, the latest first.
  abbrev pub window_after : List Sighting → List Sighting
  window_after [] = []
  window_after (x ∷ earlier) = next_window py fs n dt seconds (window_after earlier) x

  -- Those that are not older than the cutoff, in the order of time.
  abbrev pub recent_of : fs.Float → List Sighting → List Sighting
  recent_of cutoff [] = []
  recent_of cutoff (x ∷ earlier) =
      recent_of cutoff earlier ++ (if fs.lt x.0 cutoff then [] else x ∷ [])

  abbrev IsLatest : Sighting → List Sighting → Type 0
  IsLatest x earlier = All (λ u. fs.lt x.0 u.0 ≡ false) earlier

  -- Time does not go back.
  abbrev pub IsInOrder : List Sighting → Type 0
  IsInOrder [] = Unit
  IsInOrder (x ∷ earlier) = IsLatest x earlier × IsInOrder earlier

  abbrev IsAscending : List Sighting → Type 0
  IsAscending [] = Unit
  IsAscending (u ∷ window) = All (λ v. fs.lt v.0 u.0 ≡ false) window × IsAscending window

  abbrev keep : fs.Float → List Sighting → List Sighting
  keep cutoff [] = []
  keep cutoff (u ∷ window) =
      let rest = keep cutoff window in if fs.lt u.0 cutoff then rest else u ∷ rest

  keep-append :
      (cutoff : fs.Float) (xs ys : List Sighting)
      → keep cutoff (xs ++ ys) ≡ keep cutoff xs ++ keep cutoff ys
  keep-append cutoff [] ys = refl
  keep-append cutoff (x ∷ xs) ys =
      let rest = keep-append cutoff xs ys in
      elim (Bool-cases (fs.lt x.0 cutoff)) [
        | inl old ↦ rw (old) rest
        | inr recent ↦ rw (recent) (ap (λ w. x ∷ w) rest)
      ]

  All-recent_of :
      (P : Sighting → Type 0) (cutoff : fs.Float) (xs : List Sighting)
      → All P xs
      → All P (recent_of cutoff xs)
  All-recent_of P cutoff [] h = tt
  All-recent_of P cutoff (x ∷ xs) (first, h) =
      All-append P (recent_of cutoff xs) _ (All-recent_of P cutoff xs h)
        (if_intro (All P) (fs.lt x.0 cutoff) [] (x ∷ []) (λ _. tt) λ _. (first, tt))

  IsAscending-append :
      (w : List Sighting) (y : Sighting)
      → IsAscending w
      → IsLatest y w
      → IsAscending (w ++ (y ∷ []))
  IsAscending-append [] y a h = (tt, tt)
  IsAscending-append (u ∷ w) y (later, a) (first, h) =
      (All-append _ w (y ∷ []) later (first, tt), IsAscending-append w y a h)

  recent_of-IsAscending :
      (cutoff : fs.Float) (xs : List Sighting) → IsInOrder xs → IsAscending (recent_of cutoff xs)
  recent_of-IsAscending cutoff [] h = tt
  recent_of-IsAscending cutoff (x ∷ xs) (latest, h) =
      let rest = recent_of-IsAscending cutoff xs h in
      if_intro (λ (last : List Sighting). IsAscending (recent_of cutoff xs ++ last))
        (fs.lt x.0 cutoff) [] (x ∷ [])
        (λ _. subst IsAscending (sym (append-nil (recent_of cutoff xs))) rest)
        λ _.
          IsAscending-append (recent_of cutoff xs) x rest
            (All-recent_of (λ u. fs.lt x.0 u.0 ≡ false) cutoff xs latest)

  keep_whole :
      (cutoff : fs.Float) (w : List Sighting)
      → All (λ v. fs.lt v.0 cutoff ≡ false) w
      → keep cutoff w ≡ w
  keep_whole cutoff [] h = refl
  keep_whole cutoff (u ∷ w) (first, h) = rw (first) (ap (λ v. u ∷ v) (keep_whole cutoff w h))

  module _ (o : IsOrdered fs seconds) where
    -- What comes behind a moment that is not too old is not too old either.
    not_old :
        (cutoff : fs.Float) (u : Sighting) (w : List Sighting)
        → fs.lt u.0 cutoff ≡ false
        → All (λ v. fs.lt v.0 u.0 ≡ false) w
        → All (λ v. fs.lt v.0 cutoff ≡ false) w
    not_old cutoff u [] recent h = tt
    not_old cutoff u (v ∷ w) recent (first, h) = (
      elim (Bool-cases (fs.lt v.0 cutoff)) [
        | inl old ↦ absurd (cc (o.above u.0 v.0 cutoff first old, recent))
        | inr young ↦ young
      ],
      not_old cutoff u w recent h,
    )

    drop_stale-keep :
        (cutoff : fs.Float) (w : List Sighting)
        → IsAscending w
        → drop_stale py fs n dt cutoff w ≡ keep cutoff w
    unfolding drop_stale
    drop_stale-keep cutoff [] h = refl
    drop_stale-keep cutoff (u ∷ w) (later, h) =
        let rest = drop_stale-keep cutoff w h in
        elim (Bool-cases (fs.lt u.0 cutoff)) [
          | inl old ↦ rw (old) rest
          | inr recent ↦
              rw (recent)
                (ap (λ v. u ∷ v) (sym (keep_whole cutoff w (not_old cutoff u w recent later))))
        ]

    keep-one :
        (before cutoff : fs.Float) (x : Sighting)
        → fs.lt cutoff before ≡ false
        → keep cutoff (if fs.lt x.0 before then [] else x ∷ [])
          ≡ (if fs.lt x.0 cutoff then [] else x ∷ [])
    keep-one before cutoff x later = elim (Bool-cases (fs.lt x.0 before)) [
      | inl old ↦ rw (old, o.below x.0 before cutoff later old) refl
      | inr recent ↦ rw (recent) refl
    ]

    keep-recent_of :
        (before cutoff : fs.Float) (xs : List Sighting)
        → fs.lt cutoff before ≡ false
        → keep cutoff (recent_of before xs) ≡ recent_of cutoff xs
    keep-recent_of before cutoff [] later = refl
    keep-recent_of before cutoff (x ∷ xs) later =
        keep-append cutoff (recent_of before xs) _
        ∙ ap₂ (λ v w. v ++ w) (keep-recent_of before cutoff xs later)
            (keep-one before cutoff x later)

    -- If time does not go back, the window of a key after a sighting holds exactly the earlier
    -- sightings that are not older than the window's length, in the order of time, and the new one.
    -- Floats are ordered, and taking the window from them keeps the order.
    pub window_after-recent_of :
        (x : Sighting) (earlier : List Sighting)
        → IsInOrder (x ∷ earlier)
        → window_after (x ∷ earlier) ≡ recent_of (fs.sub x.0 seconds) earlier ++ (x ∷ [])
    unfolding next_window drop_stale
    window_after-recent_of x [] h = refl
    window_after-recent_of x (y ∷ earlier) ((x_latest, _), (y_latest, h)) =
        let cutoff = fs.sub x.0 seconds in
        let before = fs.sub y.0 seconds in
        let w = recent_of before earlier in
        ap (λ v. drop_stale py fs n dt cutoff v ++ (x ∷ []))
          (window_after-recent_of y earlier (y_latest, h))
        ∙ ap (λ v. v ++ (x ∷ []))
            (drop_stale-keep cutoff (w ++ (y ∷ [])) (
                IsAscending-append w y (recent_of-IsAscending before earlier h)
                  (All-recent_of (λ u. fs.lt y.0 u.0 ≡ false) before earlier y_latest))
              ∙ keep-append cutoff w (y ∷ [])
              ∙ ap (λ v. v ++ keep cutoff (y ∷ []))
                  (keep-recent_of before cutoff earlier (o.same_order y.0 x.0 x_latest)))
