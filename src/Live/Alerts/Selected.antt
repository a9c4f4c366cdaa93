-- ===== src/Live/Alerts/Selected.antt =====
-- Which alert `apply_legacy_alert_fields` of oad_parser/live/alerts.py gives the record's scalar fields.
use oad_parser.Common.{
  ◌≤◌, ◌<◌, ◌≡◌, refl, ◌∙◌, arith, Option, some, List, [], ◌∷◌, ltb, if_intro, ok, All,
}
use oad_parser.Common.Text.{codes}
use oad_parser.Common.Value.{Value, sequence, Fields, Python, find, put, mappings}
use oad_parser.Common.Put.{find-put}
use oad_parser.Live.Alerts.Evaluate.{rank_of, select_loop, apply_legacy_alert_fields}

abbrev pub IsThere : Option Value → Type 0
IsThere found = (v : Value) × (found ≡ some v)

-- The alert has an id and details.
abbrev pub IsNamed : Fields → Type 0
IsNamed a = IsThere (find (codes "id") a) × IsThere (find (codes "details") a)

module _ (py : Python) where
  -- The alert is the first in the list whose severity has the highest rank.
  pub data IsMostSevere : Fields → List Fields → Type 0 where
    here :
        {best : Fields} {alerts : List Fields}
        → All (λ a. rank_of py a ≤ rank_of py best) alerts
        → IsMostSevere best (best ∷ alerts)
    later :
        {best a : Fields} {alerts : List Fields}
        → rank_of py a < rank_of py best
        → IsMostSevere best alerts
        → IsMostSevere best (a ∷ alerts)

  -- An alert that is no more severe than the one before it changes nothing.
  IsMostSevere-second :
      (best b a : Fields) (alerts : List Fields)
      → rank_of py a ≤ rank_of py b
      → IsMostSevere best (b ∷ alerts)
      → IsMostSevere best (b ∷ a ∷ alerts)
  IsMostSevere-second best _ a alerts le (here h) = here (le, h)
  IsMostSevere-second best b a alerts le (later lt s) = later lt (later (omega arith) s)

  select_loop-le :
      (b : Fields) (alerts : List Fields) → rank_of py b ≤ rank_of py (select_loop py b alerts)
  unfolding select_loop
  select_loop-le b [] = omega arith
  select_loop-le b (a ∷ alerts) =
      if_intro (λ (r : Fields). rank_of py b ≤ rank_of py (select_loop py r alerts))
        (ltb (rank_of py b) (rank_of py a)) _ _
        (λ less. ground (arith, less, select_loop-le a alerts)) λ _. select_loop-le b alerts

  pub select_loop-IsMostSevere :
      (b : Fields) (alerts : List Fields) → IsMostSevere (select_loop py b alerts) (b ∷ alerts)
  unfolding select_loop
  select_loop-IsMostSevere b [] = here tt
  select_loop-IsMostSevere b (a ∷ alerts) =
      if_intro (λ (r : Fields). IsMostSevere (select_loop py r alerts) (b ∷ a ∷ alerts))
        (ltb (rank_of py b) (rank_of py a)) _ _
        (λ less.
          later (ground (arith, select_loop-le a alerts)) (select_loop-IsMostSevere a alerts))
        λ not_less.
          IsMostSevere-second _ b a alerts (ground (arith, not_less))
            (select_loop-IsMostSevere b alerts)

  pub IsMostSevere-IsNamed :
      (best : Fields) (alerts : List Fields)
      → IsMostSevere best alerts
      → All IsNamed alerts
      → IsNamed best
  IsMostSevere-IsNamed best _ (here h) (first, named) = first
  IsMostSevere-IsNamed best _ (later {alerts = alerts} lt s) (first, named) =
      IsMostSevere-IsNamed best alerts s named

  pub record IsSelected (record' : Fields) (alerts : List Fields) (d best : Fields) : Type 0 where
    pub returned : apply_legacy_alert_fields py record' alerts ≡ ok d
    pub most_severe : IsMostSevere best alerts
    pub same_alert : find (codes "alert") d ≡ find (codes "id") best
    pub same_details : find (codes "alert_details") d ≡ find (codes "details") best
    pub same_alerts : find (codes "alerts") d ≡ some (sequence (mappings alerts))

  -- If there are alerts and each has an id and details, `apply_legacy_alert_fields` returns, stores
  -- all of them in order, and takes the scalar fields from the first of the most severe ones.
  pub apply_legacy_alert_fields-IsSelected :
      (record' a : Fields) (alerts : List Fields)
      → All IsNamed (a ∷ alerts)
      → (d : Fields) × (best : Fields) × IsSelected record' (a ∷ alerts) d best
  unfolding apply_legacy_alert_fields
  apply_legacy_alert_fields-IsSelected record' a alerts named =
      let best = select_loop py a alerts in
      let severe = select_loop-IsMostSevere a alerts in
      let ((id, id_found), (details, details_found)) =
        IsMostSevere-IsNamed best (a ∷ alerts) severe named in
      let stored = put (codes "alerts") (sequence (mappings (a ∷ alerts))) record' in
      let with_id = put (codes "alert") id stored in
      (
        put (codes "alert_details") details with_id,
        best,
        record {
          returned = rw (id_found, details_found) refl;
          most_severe = severe;
          same_alert =
              find-put (codes "alert_details") (codes "alert") details with_id
              ∙ rw (find-put (codes "alert") (codes "alert") id stored, id_found) refl;
          same_details =
              rw
                (
                  find-put (codes "alert_details") (codes "alert_details") details with_id,
                  details_found,
                )
                refl;
          same_alerts =
              rw
                (
                  find-put (codes "alert_details") (codes "alerts") details with_id,
                  find-put (codes "alert") (codes "alerts") id stored,
                  find-put (codes "alerts") (codes "alerts") (sequence (mappings (a ∷ alerts)))
                      record',
                )
                refl;
        },
      )
