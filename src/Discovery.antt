-- ===== src/Discovery.antt =====
-- kemi/discovery.py: provider records and what find_providers makes of the envelopes that dht.get
-- collects for a task. Times are in billionths of a second, prices in millionths.
pub mod Offered
pub mod Table
pub mod Latest
mod Tests
use kemi.Prelude.{
  ℕ, ◌*◌, String, Bool, true, false, ◌||◌, Option, none, some, List, [], ◌∷◌, map, any, or_else,
  is_some, str_eq, if◌then◌else◌,
}
use kemi.Prelude.Int.{ℤ, pos, ◌-ℤ◌, ltb_ℤ}
use kemi.Prelude.Assoc.{find, upsert}
use kemi.Json.{
  Value, Fields, null, bool, int, float, str, arr, obj, end, field, get, number, is_text, billion,
  nil, to_list, of_list,
}
use kemi.Crypto.{Primitives, open_envelope, sign_envelope, verify_node_id}
use kemi.Ledger.{Identity}
use kemi.Result.{Result, ok, raise, type_error, ◌>>=◌}

-- MAX_RECORD_AGE
abbrev pub max_age : ℕ
max_age = 120 * billion

-- what a provider says of itself: the arguments of make_provider_record
pub record Advert : Type 0 where
  pub host : String
  pub port : ℤ
  -- round(float(price), 6)
  pub price : ℕ
  pub tasks : List Value
  pub resources : Value
  pub relay : Value
  pub stream : Bool
  pub model : Value
  pub embed : Bool

unfoldable pub provider_payload : ℤ → Identity → Advert → Fields
provider_payload now me a = field "kind" (str "provider") (
    field "node_id" (str me.node_id) (
      field "pow_nonce" (int (pos me.pow_nonce)) (
        field "host" (str a.host) (
          field "port" (int a.port) (
            field "price" (float (pos (a.price * 1000))) (
              field "tasks" (arr (of_list a.tasks)) (
                field "resources" a.resources (
                  field "relay" a.relay (
                    field "e2e" (bool true) (
                      field "stream" (bool a.stream) (
                        field "model" a.model
                          (field "embed" (bool a.embed) (field "ts" (float now) end)))))))))))))

-- d | {k: v}: a key that is there keeps its place
unfoldable pub set_field : String → Value → Fields → Fields
set_field k v end = field k v end
set_field k v (field j w fs) = if str_eq j k then field j v fs else field j w (set_field k v fs)

-- t in s, for texts
unfoldable pub is_within : String → String → Bool
is_within String.[] t = str_eq t ""
is_within (String.◌∷◌ c s) t =
    let later = is_within s t in text.Mathlib.Text.starts_with (String.◌∷◌ c s) t || later

-- task in tasks: an item of an array, a part of a text, a key of an object
unfoldable pub names_task : String → Value → Result Bool
names_task task (arr vs) = ok (any (λ v. is_text task (some v)) (to_list vs))
names_task task (str s) = ok (is_within s task)
names_task task (obj fs) = ok (is_some (get task fs))
names_task task _ = raise type_error

-- a payload that passed the tests, with its node id and its time
pub record Found : Type 0 where
  pub node_id : String
  pub ts : ℤ
  pub payload : Fields

-- the last test: a later record of a node replaces the one before
unfoldable pub keep_latest : Option Found → List (String × Found) → List (String × Found)
keep_latest none fresh = fresh
keep_latest (some r) fresh = elim (find r.node_id fresh) [
  | none ↦ upsert r.node_id r fresh
  | some current ↦ if ltb_ℤ current.ts r.ts then upsert r.node_id r fresh else fresh
]

-- envelope["pubkey"], which an envelope that opens has
abbrev pub pubkey_of : Value → Option Value
pubkey_of (obj fs) = get "pubkey" fs
pubkey_of _ = none

module _ (p : Primitives) where
  -- now is round(time.time(), 3)
  unfoldable pub make_provider_record : ℤ → Identity → Advert → Value
  make_provider_record now me a = sign_envelope p me.seed (provider_payload now me a)

  -- the tests of time and task, for an id that was verified
  abbrev pub check_age :
      ℤ → String → Option Value → Fields → Value → Option ℤ → Result (Option Found)
  check_age now task pubkey payload (str node_id) (some ts) =
      if ltb_ℤ (pos max_age) (now -ℤ ts)
      then ok none
      else (names_task task (or_else (get "tasks" payload) (arr nil)) >>= (λ named. ok (
          if named
          then some (record {
            node_id = node_id;
            ts = ts;
            payload = set_field "pubkey" (or_else pubkey null) payload;
          })
          else none)))
  check_age now task pubkey payload _ _ = ok none

  abbrev pub check_provider : ℕ → ℤ → String → Option Value → Option Fields → Result (Option Found)
  check_provider difficulty now task pubkey none = ok none
  check_provider difficulty now task pubkey (some payload) =
      if is_text "provider" (get "kind" payload)
      then (let node_id = or_else (get "node_id" payload) (str "") in
          verify_node_id p node_id pubkey (get "pow_nonce" payload) difficulty >>= (λ good.
            if good
            then check_age now task pubkey payload node_id
                (number (some (or_else (get "ts" payload) (int (pos 0)))))
            else ok none))
      else ok none

  -- the body of the loop up to its last test: none where it goes on with the next envelope
  unfoldable pub check_envelope : ℕ → ℤ → String → Value → Result (Option Found)
  check_envelope difficulty now task envelope =
      check_provider difficulty now task (pubkey_of envelope) (open_envelope p envelope)

  unfoldable pub collect :
      ℕ → ℤ → String → List Value → List (String × Found) → Result (List (String × Found))
  collect difficulty now task [] fresh = ok fresh
  collect difficulty now task (e ∷ es) fresh = do
    r ← check_envelope difficulty now task e
    collect difficulty now task es (keep_latest r fresh)

  -- of the envelopes that dht.get gives
  unfoldable pub find_providers : ℕ → ℤ → String → List Value → Result (List Found)
  find_providers difficulty now task envelopes = do
    fresh ← collect difficulty now task envelopes []
    ok (map (λ (k, r). r) fresh)
