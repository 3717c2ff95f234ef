-- ===== src/Metrics/Lookup.antt =====
-- What an instrument of src/metrics.rs holds for a set of attributes after a sequence of updates.
use mathlib.Core.Path.{subst}
use rolly.Base.{
  ℕ, ◌≡◌, refl, ap, ◌∙◌, ◌+◌, ◌≤◌, ◌<◌, arith, Bool, true, false, Option, none, some, List, [], ◌∷◌,
  ◌==◌, inr, if◌then◌else◌, length,
}
use rolly.Base.Sorting.{sort}
use rolly.Metrics.{
  Attrs, Exemplar, Point, Instrument, attrs_key, le_pair, owned_attrs, newer, recorded, fresh_point,
  record_value, get,
}
use rolly.Metrics.Points.{
  Update, at_hand, record_all, record_value-grows, record_value-get-same, record_value-get-other,
}

module _ {V : Type 0} where
  -- The first update of a set stores its attributes in order; a later one keeps them, and keeps the
  -- exemplar unless it brings one.
  pub after : Option (Point V) → Update V → Point V
  after none (attrs, initial, update, exemplar) = record {
    attrs = sort le_pair attrs;
    value = update initial;
    exemplar = exemplar;
  }
  after (some p) (attrs, initial, update, none) = record {
    attrs = p.attrs;
    value = update p.value;
    exemplar = p.exemplar;
  }
  after (some p) (attrs, initial, update, some e) = record {
    attrs = p.attrs;
    value = update p.value;
    exemplar = some e;
  }

  -- What the updates with a key make of what is held for it.
  unfoldable pub history : ℕ → Option (Point V) → List (Update V) → Option (Point V)
  history key held [] = held
  history key held (u ∷ us) =
      history key (if attrs_key u.0 == key then some (after held u) else held) us

  recorded-after :
      (held : Option (Point V)) (attrs : Attrs) (initial : V) (update : V → V)
      (exemplar : Option Exemplar)
      → recorded exemplar update (at_hand (fresh_point attrs initial) held)
        ≡ after held (attrs, initial, update, exemplar)
  unfolding recorded newer after owned_attrs
  recorded-after none attrs initial update none = refl
  recorded-after none attrs initial update (some e) = refl
  recorded-after (some p) attrs initial update none = refl
  recorded-after (some p) attrs initial update (some e) = refl

  record_value-history :
      (key : ℕ) (m : Instrument V) (attrs : Attrs) (initial : V) (update : V → V)
      (exemplar : Option Exemplar) (same : Bool)
      → attrs_key attrs == key ≡ same
      → length m.points < m.max_cardinality
      → get key (record_value m attrs initial update exemplar).0.points ≡ (
          if same
          then some (after (get key m.points) (attrs, initial, update, exemplar))
          else get key m.points)
  record_value-history key m attrs initial update exemplar true e room =
      let k : attrs_key attrs ≡ key = ground (arith, e) in
      subst
        (λ k.
          get k (record_value m attrs initial update exemplar).0.points
          ≡ some (after (get k m.points) (attrs, initial, update, exemplar)))
        k
        (record_value-get-same m attrs initial update exemplar (inr room)
          ∙ ap some (recorded-after (get (attrs_key attrs) m.points) attrs initial update exemplar))
  record_value-history key m attrs initial update exemplar false e room =
      record_value-get-other m attrs initial update exemplar key (inr room) e

  -- After a sequence of updates for which there is room even if each brings a new set, a lookup of
  -- a key finds what the updates with that key alone make of what was held for it: the attributes of
  -- the first one, sorted, the value after all of them, and the last exemplar that was given.
  pub record_all-get :
      (key : ℕ) (m : Instrument V) (updates : List (Update V))
      → length m.points + length updates ≤ m.max_cardinality
      → get key (record_all m updates).0.points ≡ history key (get key m.points) updates
  unfolding record_all history
  record_all-get key m [] room = refl
  record_all-get key m ((attrs, initial, update, exemplar) ∷ rest) room =
      let (grown, limit) = record_value-grows m attrs initial update exemplar in
      record_all-get key (record_value m attrs initial update exemplar).0 rest
        (omega (arith, grown, limit, room))
      ∙ ap (λ held. history key held rest)
          (record_value-history key m attrs initial update exemplar _ refl (omega (arith, room)))
