-- ===== src/Consumer/Providers.antt =====
-- kemi/consumer.py: list_providers, whom a consumer would hire and in which order, for a node without a
-- trained ranking; and run_pipeline, jobs whose items are the results of the job before.
use kemi.Prelude.{
  ℕ, ◌*◌, String, Bool, true, false, not, ◌&&◌, ◌||◌, Option, none, some, List, [], ◌∷◌, keep, ltb,
  ◌==◌, str_eq, if◌then◌else◌,
}
use kemi.Json.{Value, str}
use kemi.Ledger.Queries.{is_flagged}
use kemi.Reputation.{score, is_banned}
use kemi.Node.{Node, truthy}
use kemi.Result.{Result, raise, job_error, ◌>>=◌}
use kemi.Consumer.Hiring.{Provider}

-- tasks.BACKEND_REQUIRED
abbrev pub backend_required : String → Bool
backend_required task = str_eq task "ai.generate" || str_eq task "ai.embed"

-- a provider with the model that it advertises
abbrev pub Offer : Type 0
Offer = Provider × Option Value

abbrev is_model : String → Option Value → Bool
is_model wanted (some (str m)) = str_eq m wanted
is_model wanted _ = false

abbrev fits : Option String → Option Value → Bool
fits none model = true
fits (some wanted) model = is_model wanted model

unfoldable pub is_usable : Node → Option String → Offer → Bool
is_usable n wanted (r, model) =
    not (str_eq r.node_id n.identity.node_id)
    && (not (is_banned n.reputation r.node_id)
        && (not (is_flagged n.ledger r.node_id) && fits wanted model))

-- (p.get("model") or "mock") == "mock"
abbrev is_mock : Option Value → Bool
is_mock none = true
is_mock (some v) = not (truthy v) || is_model "mock" (some v)

unfoldable pub mock_tier : String → Option Value → ℕ
mock_tier task model = if backend_required task && is_mock model then 1 else 0

-- the order of the keys (mock_tier, -score, price); a score is a fraction
unfoldable pub is_before : Node → String → Offer → Offer → Bool
is_before n task (r, rm) (s, sm) =
    let (rn, rd) = score n.reputation r.node_id in
    let (sn, sd) = score n.reputation s.node_id in
    ltb (mock_tier task rm) (mock_tier task sm)
    || (mock_tier task rm == mock_tier task sm
        && (ltb (sn * rd) (rn * sd) || (rn * sd == sn * rd && ltb r.price s.price)))

-- list.sort is stable
unfoldable pub insert_offer : Node → String → Offer → List Offer → List Offer
insert_offer n task x [] = x ∷ []
insert_offer n task x (y ∷ ys) =
    if is_before n task y x then y ∷ insert_offer n task x ys else x ∷ y ∷ ys

unfoldable pub sort_offers : Node → String → List Offer → List Offer
sort_offers n task [] = []
sort_offers n task (x ∷ xs) = insert_offer n task x (sort_offers n task xs)

-- of the verified records that find_providers gives
unfoldable pub list_providers : Node → String → Option String → List Offer → List Offer
list_providers n task wanted found = sort_offers n task (keep (is_usable n wanted) found)

-- a stage's job on the items gives its results, or an exception
unfoldable pub run_pipeline :
    List (List Value → Result (List Value)) → List Value → Result (List Value)
run_pipeline [] items = raise job_error
run_pipeline (stage ∷ stages) items = elim stages [
  | [] ↦ stage items
  | _ ∷ _ ↦ stage items >>= run_pipeline stages
]
