-- ===== src/Quota/Policy.antt =====
-- Which quota rule applies to a user: `resolveEffectiveAiuQuotaPolicy` of
-- packages/db/src/aiu-quota-policies.ts.
pub mod Precedence
use token_pilot.Base.{
  ℕ, Bool, true, false, Option, none, some, List, [], ◌∷◌, ◌&&◌, ◌||◌, not, ◌==◌, ltb, keep, find,
  includes, same_option,
}
use token_pilot.Base.Int.{ℤ}
use token_pilot.Base.Sort.{sort_by}
use token_pilot.Quota.Types.{PeriodType}

pub data Scope : Type 0 where
  application user user_group : Scope

pub record Evaluation : Type 0 where
  pub definition_version : ℕ
  pub evaluated_at : ℕ
  pub members : List ℕ

pub record Group : Type 0 where
  pub definition_version : ℕ
  pub evaluations : List Evaluation

pub record Policy : Type 0 where
  pub id : ℕ
  pub application_id : ℕ
  pub enabled : Bool
  pub scope : Scope
  pub user_id : Option ℕ
  pub group : Option Group
  pub priority : ℕ
  pub updated_at : ℕ
  pub limit : ℤ
  pub hard_limit : Bool
  pub period_type : PeriodType
  pub starts_at : Option ℕ
  pub ends_at : Option ℕ

abbrev pub is_user_scope : Scope → Bool
is_user_scope user = true
is_user_scope _ = false

abbrev pub is_group_scope : Scope → Bool
is_group_scope user_group = true
is_group_scope _ = false

abbrev pub is_application_scope : Scope → Bool
is_application_scope application = true
is_application_scope _ = false

-- The `where` of the query.
abbrev pub is_candidate : ℕ → ℕ → Policy → Bool
is_candidate app id p =
    p.application_id == app
    && (p.enabled && (not (is_user_scope p.scope) || same_option p.user_id (some id)))

-- Its `orderBy`: priority and update time descending, then the identifier.
abbrev pub ranks_before : Policy → Policy → Bool
ranks_before a b =
    ltb b.priority a.priority
    || (a.priority == b.priority
        && (ltb b.updated_at a.updated_at || (a.updated_at == b.updated_at && ltb a.id b.id)))

abbrev pub newer : Evaluation → Evaluation → Bool
newer a b = ltb b.evaluated_at a.evaluated_at

abbrev pub latest : List Evaluation → Option Evaluation
latest es = elim (sort_by newer es) [ [] ↦ none | e ∷ _ ↦ some e ]

-- Membership counts only in an evaluation of the group's current definition.
abbrev pub member_of : ℕ → Option Group → Bool
member_of id none = false
member_of id (some g) = elim (latest g.evaluations) [
  | none ↦ false
  | some e ↦ e.definition_version == g.definition_version && includes id e.members
]

abbrev pub is_direct : Policy → Bool
is_direct p = is_user_scope p.scope

abbrev pub is_group_rule : ℕ → Policy → Bool
is_group_rule id p = is_group_scope p.scope && member_of id p.group

abbrev pub is_default : Policy → Bool
is_default p = is_application_scope p.scope

unfoldable pub candidates : ℕ → ℕ → List Policy → List Policy
candidates app id policies = sort_by ranks_before (keep (is_candidate app id) policies)

unfoldable pub resolve_policy : ℕ → ℕ → List Policy → Option Policy
resolve_policy app id policies =
    let rows = candidates app id policies in
    elim (find is_direct rows) [
      | some direct ↦ some direct
      | none ↦ elim (find (is_group_rule id) rows) [
        | some rule ↦ some rule
        | none ↦ find is_default rows
      ]
    ]
