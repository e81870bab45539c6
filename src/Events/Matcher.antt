-- ===== src/Events/Matcher.antt =====
-- `EventMatcher` of crates/ows-runtime-events/src/lib.rs. A compiled regular expression and a
-- predicate are functions.
use ows_runtime_rust.Prelude.{
  refl, String, Bool, true, false, Option, none, some, List, [], ◌∷◌, unwrap_or, or_else, str_eq,
  ◌&&◌, ℕ, if◌then◌else◌, ◌≡◌, not, get_elem?, eq_iff, suc, arith, zero, ◌↔◌,
}
use ows_runtime_rust.Json.{Value, null, string, object, get, values_equal}
use ows_runtime_rust.Events.CloudEvent.{CloudEvent}

pub data FieldConstraint (N : Type 0) : Type 0 where
  equals : Value N → FieldConstraint N
  matches_regex : (String → Bool) → FieldConstraint N
  expression : (CloudEvent N → Bool) → FieldConstraint N

pub record EventMatcher (N : Type 0) : Type 0 where
  pub type_ : Option String
  pub source : Option String
  pub subject : Option String
  pub attributes : List (String × FieldConstraint N)

module _ {N : Type 0} where
  -- `d.get(key)`: only an object has members
  unfoldable pub member : String → Option (Value N) → Option (Value N)
  member key (some (object m)) = get key m
  member key _ = none

  abbrev string_or_null : Option String → Value N
  string_or_null none = null
  string_or_null (some s) = string s

  -- the value that a constraint's key names
  unfoldable pub attribute : String → CloudEvent N → Value N
  unfolding member
  attribute key e =
      if str_eq key "type"
      then string e.type_
      else if str_eq key "source"
      then string e.source
      else if str_eq key "subject"
      then string_or_null e.subject
      else if str_eq key "data"
      then unwrap_or e.data_ null
      else if str_eq key "id"
      then string e.id
      else unwrap_or (or_else (get key e.extensions) (member key e.data_)) null

  module _ (number_eq : N → N → Bool) where
    unfoldable pub satisfies : FieldConstraint N → Value N → CloudEvent N → Bool
    satisfies (equals expected) v e = values_equal number_eq v expected
    satisfies (matches_regex is_match) (string s) e = is_match s
    satisfies (matches_regex is_match) _ e = false
    satisfies (expression f) v e = f e

    unfoldable pub attributes_match : List (String × FieldConstraint N) → CloudEvent N → Bool
    unfolding attribute satisfies
    attributes_match [] e = true
    attributes_match ((key, constraint) ∷ rest) e =
        satisfies constraint (attribute key e) e && attributes_match rest e

    abbrev requires : Option String → String → Bool
    requires none actual = true
    requires (some t) actual = str_eq t actual

    unfoldable pub matches : EventMatcher N → CloudEvent N → Bool
    unfolding attributes_match
    matches m e =
        if not (requires m.type_ e.type_)
        then false
        else if not (requires m.source e.source)
        then false
        else if not (requires m.subject (unwrap_or e.subject ""))
        then false
        else attributes_match m.attributes e

    -- what a matcher asks: its parts, each by itself
    pub record Accepted (m : EventMatcher N) (e : CloudEvent N) : Type 0 where
      pub type_holds : (t : String) → m.type_ ≡ some t → t ≡ e.type_
      pub source_holds : (t : String) → m.source ≡ some t → t ≡ e.source
      pub subject_holds : (t : String) → m.subject ≡ some t → t ≡ unwrap_or e.subject ""
      pub attributes_hold :
          (i : ℕ) (key : String) (k : FieldConstraint N)
          → get_elem? m.attributes i ≡ some (key, k)
          → satisfies k (attribute key e) e ≡ true

    attributes_match-each :
        (ks : List (String × FieldConstraint N)) (e : CloudEvent N)
        → attributes_match ks e ≡ true
        → (i : ℕ) (key : String) (k : FieldConstraint N) → get_elem? ks i ≡ some (key, k)
        → satisfies k (attribute key e) e ≡ true
    unfolding attributes_match
    attributes_match-each [] e h i key k at = absurd (ground (arith, at))
    attributes_match-each ((j, l) ∷ rest) e h zero key k at = ground (arith, at)
    attributes_match-each ((j, l) ∷ rest) e h (suc i) key k at =
        attributes_match-each rest e (ground arith) i key k at

    each-attributes_match :
        (ks : List (String × FieldConstraint N)) (e : CloudEvent N)
        → ((i : ℕ) (key : String) (k : FieldConstraint N)
            → get_elem? ks i ≡ some (key, k)
            → satisfies k (attribute key e) e ≡ true)
        → attributes_match ks e ≡ true
    unfolding attributes_match
    each-attributes_match [] e h = refl
    each-attributes_match ((j, l) ∷ rest) e h =
        ground
          (arith, h 0 j l refl, each-attributes_match rest e (λ i key k at. h (suc i) key k at))

    required :
        (o : Option String) (actual : String)
        → requires o actual ≡ true
        → (t : String) → o ≡ some t
        → t ≡ actual
    required none actual h t e = absurd (ground (arith, e))
    required (some u) actual h t e = ground (arith, eq_iff u actual, e)

    requires-all :
        (o : Option String) (actual : String)
        → ((t : String) → o ≡ some t → t ≡ actual)
        → requires o actual ≡ true
    requires-all none actual h = refl
    requires-all (some u) actual h = (eq_iff u actual).1 (h u refl)

    -- An event matches exactly when its type, source and subject are those asked for, where they
    -- are asked for, and every attribute constraint is satisfied by the value its key names.
    pub matches_iff : (m : EventMatcher N) (e : CloudEvent N) → matches m e ≡ true ↔ Accepted m e
    unfolding matches
    matches_iff m e = (
      (λ h. record {
        type_holds = required m.type_ e.type_ (ground arith);
        source_holds = required m.source e.source (ground arith);
        subject_holds = required m.subject (unwrap_or e.subject "") (ground arith);
        attributes_hold = attributes_match-each m.attributes e (ground arith);
      }),
      λ a. ground (
        arith,
        requires-all m.type_ e.type_ a.type_holds,
        requires-all m.source e.source a.source_holds,
        requires-all m.subject (unwrap_or e.subject "") a.subject_holds,
        each-attributes_match m.attributes e a.attributes_hold,
      ),
    )
