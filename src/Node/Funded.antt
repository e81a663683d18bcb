-- ===== src/Node/Funded.antt =====
-- _validate_payment of node.py: what a payment without a problem is.
use kemi.Prelude.{
  ℕ, String, ◌≡◌, refl, sym, ap, subst, Bool, true, false, Option, none, some, if◌then◌else◌,
  or_else, Bool-cases, Option-cases, inl, inr,
}
use kemi.Prelude.Int.{ℤ, pos, negsuc, ◌+ℤ◌, ltb_ℤ}
use kemi.Json.{Value, Fields, obj, str, int, get, number, is_text}
use kemi.Crypto.{Primitives, open_envelope, verify_node_id}
use kemi.Crypto.Verified.{IsEarned, verify_node_id-IsEarned}
use kemi.Result.{Result, ok, >>=-eq-ok, ok-injective}
use kemi.Ledger.Queries.{balance, is_flagged}
use kemi.Reputation.{is_banned}
use kemi.Node.{Node, text_of}
use kemi.Node.Payment.{
  Problem, check_account, check_payload, settle_checks, validate_payment, pubkey_of, in_billionths,
  below_price, flagged, banned, insufficient,
}

-- what a payment that passes the checks is: signed by an id that has earned its name, made out to
-- this node, not below the price by more than a billionth of a credit, and covered by an account in
-- good standing
pub record IsFunded (p : Primitives) (show : Value → String) (n : Node) (envelope : Value)
    (expected : ℕ) (sender : String) : Type 0 where
  pub payload : Fields
  pub amount : ℤ
  pub opens : open_envelope p envelope ≡ some payload
  pub kind : is_text "tx" (get "kind" payload) ≡ true
  pub names : sender ≡ text_of show (or_else (get "from" payload) (str ""))
  pub earned : IsEarned p (str sender) n.ledger.difficulty
  pub addressed : is_text n.identity.node_id (get "to" payload) ≡ true
  pub pays : number (get "amount" payload) ≡ some amount
  pub enough : ltb_ℤ (amount +ℤ pos 1) (pos expected) ≡ false
  pub unflagged : is_flagged n.ledger sender ≡ false
  pub unbanned : is_banned n.reputation sender ≡ false
  pub covered : ltb_ℤ (in_billionths (balance n.ledger sender)) amount ≡ false

module _ (p : Primitives) (show : Value → String) where
  account-none :
      (n : Node) (sender : String) (expected : ℕ) (amount : ℤ)
      → check_account p show n sender expected (some amount) ≡ none
      → (ltb_ℤ (amount +ℤ pos 1) (pos expected) ≡ false)
        × (is_flagged n.ledger sender ≡ false)
        × (is_banned n.reputation sender ≡ false)
        × (ltb_ℤ (in_billionths (balance n.ledger sender)) amount ≡ false)
  unfolding check_account
  account-none n sender expected amount h =
      chain (ltb_ℤ (amount +ℤ pos 1) (pos expected)) (is_flagged n.ledger sender)
        (is_banned n.reputation sender) (ltb_ℤ (in_billionths (balance n.ledger sender)) amount) h
    where
      chain :
          (a b c d : Bool)
          → (if a
              then some below_price
              else if b
              then some flagged
              else if c
              then some banned
              else if d
              then some insufficient
              else none)
            ≡ none
          → (a ≡ false) × (b ≡ false) × (c ≡ false) × (d ≡ false)
      chain false false false false k = (refl, refl, refl, refl)
      chain true b c d k = cc
      chain false true c d k = cc
      chain false false true d k = cc
      chain false false false true k = cc

  IsFunded-amount :
      (n : Node) (envelope : Value) (expected : ℕ) (payload : Fields) (sender : String)
      (o : Option ℤ)
      → open_envelope p envelope ≡ some payload
      → is_text "tx" (get "kind" payload) ≡ true
      → sender ≡ text_of show (or_else (get "from" payload) (str ""))
      → IsEarned p (str sender) n.ledger.difficulty
      → is_text n.identity.node_id (get "to" payload) ≡ true
      → number (get "amount" payload) ≡ o
      → check_account p show n sender expected o ≡ none
      → IsFunded p show n envelope expected sender
  unfolding check_account
  IsFunded-amount n envelope expected payload sender none o k s e t a h = cc
  IsFunded-amount n envelope expected payload sender (some amount) o k s e t a h =
      let (x, y, z, w) = account-none n sender expected amount h in
      record {
        payload = payload;
        amount = amount;
        opens = o;
        kind = k;
        names = s;
        earned = e;
        addressed = t;
        pays = a;
        enough = x;
        unflagged = y;
        unbanned = z;
        covered = w;
      }

  payload-IsFunded :
      (n : Node) (envelope : Value) (expected : ℕ) (payload : Fields) (sender : String)
      → open_envelope p envelope ≡ some payload
      → check_payload p show n envelope expected payload ≡ ok (sender, none)
      → IsFunded p show n envelope expected sender
  unfolding check_payload
  payload-IsFunded n envelope expected payload sender opens h =
      elim (Bool-cases (is_text "tx" (get "kind" payload))) [
        | inr other ↦ cc (rw other at h)
        | inl kind ↦
            let claimed = text_of show (or_else (get "from" payload) (str "")) in
            let (verified, q, k) =
              >>=-eq-ok (verify_node_id p (str claimed) _ _ n.ledger.difficulty) _ (rw kind at h) in
            go kind verified q k
      ]
    where
      parts :
          {s t : String} {a b : Option Problem}
          → ◌≡◌ {A = Result (String × Option Problem)} (ok (s, a)) (ok (t, b))
          → (s ≡ t) × (a ≡ b)
      parts q =
          let e = ok-injective q in
          (ap (λ (x : String × Option Problem). x.0) e, ap (λ (x : String × Option Problem). x.1) e)

      go :
          is_text "tx" (get "kind" payload) ≡ true
          → (verified : Bool)
          → verify_node_id p
              (str (text_of show (or_else (get "from" payload) (str ""))))
              (some (or_else (pubkey_of p show envelope) (str "")))
              (some (or_else (get "pow_nonce" payload) (int (negsuc 0))))
              n.ledger.difficulty
            ≡ ok verified
          → settle_checks p show n
              (text_of show (or_else (get "from" payload) (str "")))
              expected
              payload
              verified
            ≡ ok (sender, none)
          → IsFunded p show n envelope expected sender
      go kind false q k = cc
      go kind true q k = elim (Bool-cases (is_text n.identity.node_id (get "to" payload))) [
        | inr other ↦ cc (rw other at k)
        | inl addressed ↦
            let (names, good) = parts (rw addressed at k) in
            IsFunded-amount n envelope expected payload sender (number (get "amount" payload)) opens
              kind (sym names)
              (subst (λ s. IsEarned p (str s) n.ledger.difficulty) names
                (verify_node_id-IsEarned p
                  (str (text_of show (or_else (get "from" payload) (str "")))) n.ledger.difficulty _
                  _ q))
              addressed refl
              (subst (λ s. check_account p show n s expected (number (get "amount" payload)) ≡ none)
                names good)
      ]

  -- A payment in which validate_payment finds no problem is funded: a signed transfer to this node of
  -- at least the price, less a billionth, by an id that has earned its name and whose account is
  -- unflagged, unbanned and covers the amount.
  pub validate_payment-IsFunded :
      (n : Node) (envelope : Value) (expected : ℕ) (sender : String)
      → validate_payment p show n envelope expected ≡ ok (sender, none)
      → IsFunded p show n envelope expected sender
  unfolding validate_payment
  validate_payment-IsFunded n (obj fs) expected sender h =
      elim (Option-cases (open_envelope p (obj fs))) [
        | inl bad ↦ cc (rw (bad, validate_payment) at h)
        | inr (payload, opens) ↦
            payload-IsFunded n (obj fs) expected payload sender opens
              (rw (opens, validate_payment) at h)
      ]
  validate_payment-IsFunded n _ expected sender h = cc
