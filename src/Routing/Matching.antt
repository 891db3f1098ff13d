-- ===== src/Routing/Matching.antt =====
-- When the condition of a route rule holds: `ruleMatches` of sdks/node/src/runtime/routing.ts.
use token_pilot.Base.{
  ℕ, ◌+◌, ◌*◌, ◌-◌, Bool, true, false, Option, none, some, List, [], ◌∷◌, ◌&&◌, ◌||◌, not, ◌==◌,
  ltb, leb, if◌then◌else◌, includes, same_list, same_option, any,
}

-- A text is its code units; another scalar carries the text that `String` makes of it.
pub data Scalar : Type 0 where
  text : List ℕ → Scalar
  number : ℕ → List ℕ → Scalar
  flag : Bool → List ℕ → Scalar

pub data Property : Type 0 where
  undefined null : Property
  scalar : Scalar → Property
  array : List Scalar → Property

pub data Operator : Type 0 where
  is_set is_not_set equals not_equals starts_with contains : Operator

-- "HH:MM"
pub record Clock : Type 0 where
  pub hour : ℕ
  pub minute : ℕ

pub record Schedule : Type 0 where
  pub days : List ℕ
  pub start : Clock
  pub end : Clock

pub data Match : Type 0 where
  override_active : Match
  users : List ℕ → Match
  user_property : ℕ → Operator → Scalar → Match
  call_source : ℕ → Match
  schedule : Schedule → Match

pub record Target : Type 0 where
  pub model_id : ℕ
  pub weight : ℕ

pub record Route : Type 0 where
  pub route_tag : ℕ
  pub weighted : Bool
  pub targets : List Target

pub record Rule : Type 0 where
  pub id : ℕ
  pub priority : ℕ
  pub expires_at : Option ℕ
  pub condition : Match
  pub route : Route

pub record Context : Type 0 where
  pub user_id : Option ℕ
  pub properties : ℕ → Property
  pub call_source : Option ℕ
  pub selection_key : Option ℕ

pub record Local : Type 0 where
  pub weekday : ℕ
  pub minute : ℕ

abbrev pub string_of : Scalar → List ℕ
string_of (text s) = s
string_of (number n s) = s
string_of (flag b s) = s

abbrev pub same_flag : Bool → Bool → Bool
same_flag a b = if a then b else not b

-- `===` of two scalars.
abbrev pub same_scalar : Scalar → Scalar → Bool
same_scalar (text a) (text b) = same_list a b
same_scalar (number a s) (number b t) = a == b
same_scalar (flag a s) (flag b t) = same_flag a b
same_scalar _ _ = false

abbrev pub has_prefix : List ℕ → List ℕ → Bool
has_prefix [] s = true
has_prefix (x ∷ xs) [] = false
has_prefix (x ∷ xs) (y ∷ ys) = x == y && has_prefix xs ys

abbrev pub has_substring : List ℕ → List ℕ → Bool
has_substring t [] = has_prefix t []
has_substring t (y ∷ ys) = has_prefix t (y ∷ ys) || has_substring t ys

abbrev pub is_present : Property → Bool
is_present undefined = false
is_present null = false
is_present _ = true

abbrev pub equals_value : Property → Scalar → Bool
equals_value (scalar s) v = same_scalar s v
equals_value _ v = false

abbrev pub starts_with_value : Property → Scalar → Bool
starts_with_value (scalar (text s)) v = has_prefix (string_of v) s
starts_with_value _ v = false

abbrev pub contains_value : Property → Scalar → Bool
contains_value (scalar (text s)) v = has_substring (string_of v) s
contains_value (array vs) v = any (λ w. same_scalar w v) vs
contains_value _ v = false

unfoldable pub property_matches : Operator → Property → Scalar → Bool
property_matches is_set p v = is_present p
property_matches is_not_set p v = not (is_present p)
property_matches equals p v = equals_value p v
property_matches not_equals p v = not (equals_value p v)
property_matches starts_with p v = starts_with_value p v
property_matches contains p v = contains_value p v

abbrev pub clock_minute : Clock → ℕ
clock_minute c = c.hour * 60 + c.minute

abbrev pub previous_weekday : ℕ → ℕ
previous_weekday d = if d == 1 then 7 else d - 1

unfoldable pub schedule_matches : Schedule → Local → Bool
schedule_matches s local =
    let start = clock_minute s.start in
    let end = clock_minute s.end in
    if ltb start end
    then includes local.weekday s.days && (leb start local.minute && ltb local.minute end)
    else if ltb end start
    then includes local.weekday s.days && leb start local.minute
      || includes (previous_weekday local.weekday) s.days && ltb local.minute end
    else false

-- `ids.includes(userId ?? "")`, with 0 for the empty text.
abbrev pub or_empty : Option ℕ → ℕ
or_empty none = 0
or_empty (some u) = u

abbrev pub is_live : Option ℕ → ℕ → Bool
is_live none now = false
is_live (some expires_at) now = ltb now expires_at

unfoldable pub match_applies : Match → Option ℕ → Local → ℕ → Context → Bool
match_applies override_active expires_at local now c = is_live expires_at now
match_applies (users ids) expires_at local now c = includes (or_empty c.user_id) ids
match_applies (user_property key operator v) expires_at local now c =
    property_matches operator (c.properties key) v
match_applies (call_source source) expires_at local now c = same_option c.call_source (some source)
match_applies (schedule s) expires_at local now c = schedule_matches s local

abbrev pub rule_matches : Rule → Local → ℕ → Context → Bool
rule_matches r local now c = match_applies r.condition r.expires_at local now c
