-- ===== src/Control/Checkpoint.antt =====
-- control/checkpoint.py: the approval gate before a risky action, which waits and is resolved once.
-- `Stamp` is one draw of `uuid.uuid4().hex` and of the clock.
use hex_agent.Base.{
  ◌≡◌, refl, sym, ap, ◌==◌, String, not, Bool, true, false, ◌&&◌, Option, none, some, List, [], ◌∷◌,
  contains, not_blank, arith,
}
use hex_agent.Base.{if◌then◌else◌, if_rule, subst, String-discrete, Bool-cases, inl, inr}
use hex_agent.Base.Result.{Result, ok, err, contract_error, ◌>>=◌, ok_inj, err-absurd}
use hex_agent.Value.{
  null, str, obj, Fields, end, field, get, get_or, str_of, dict_or_empty, optional_text, Python,
}
use hex_agent.Control.Command.{Stamp, or_else}
use hex_agent.Control.Command

abbrev pub resolved_statuses : List String
resolved_statuses = "approved" ∷ "rejected" ∷ "expired" ∷ "auto_approved" ∷ []

abbrev pub checkpoint_statuses : List String
checkpoint_statuses = "waiting" ∷ resolved_statuses

abbrev pub risk_levels : List String
risk_levels = "low" ∷ "medium" ∷ "high" ∷ "dangerous" ∷ []

pub record RuntimeCheckpoint : Type 0 where
  pub checkpoint_type : String
  pub session_id : String
  pub risk_level : String
  pub status : String
  pub payload : Fields
  pub checkpoint_id : String
  pub created_at : String
  pub resolved_at : Option String

abbrev pub is_valid_checkpoint : RuntimeCheckpoint → Bool
is_valid_checkpoint c =
    not_blank c.checkpoint_id
    && not_blank c.checkpoint_type
    && not_blank c.session_id
    && not_blank c.created_at
    && contains checkpoint_statuses c.status
    && contains risk_levels c.risk_level

-- `RuntimeCheckpoint.__post_init__`
unfoldable pub checkpoint_check : RuntimeCheckpoint → Result RuntimeCheckpoint
checkpoint_check c = if is_valid_checkpoint c then ok c else err contract_error

abbrev pub is_waiting : RuntimeCheckpoint → Bool
is_waiting c = c.status == "waiting"

-- `resolved_at or _utc_now()`
abbrev moment : Option String → String → String
moment none now = now
moment (some t) now = or_else t now

unfoldable pub with_status :
    String → Option String → String → RuntimeCheckpoint → Result RuntimeCheckpoint
unfolding checkpoint_check
with_status status resolved_at now c =
    if not (contains resolved_statuses status)
    then err contract_error
    else if not (is_waiting c)
    then err contract_error
    else checkpoint_check
        (record c { status = status; resolved_at = some (moment resolved_at now) })

unfoldable pub checkpoint_as_dict : RuntimeCheckpoint → Fields
checkpoint_as_dict c = field "checkpoint_id" (str c.checkpoint_id) (
    field "session_id" (str c.session_id) (
      field "checkpoint_type" (str c.checkpoint_type) (
        field "status" (str c.status) (
          field "risk_level" (str c.risk_level) (
            field "payload" (obj c.payload) (
              field "created_at" (str c.created_at)
                (field "resolved_at" (optional_text c.resolved_at) end)))))))

unfoldable pub checkpoint_from_dict : Python → Stamp → Fields → Result RuntimeCheckpoint
unfolding checkpoint_check
checkpoint_from_dict py stamp d = dict_or_empty py (get_or "payload" null d) >>= λ payload.
    checkpoint_check (record {
      checkpoint_type = str_of py (get_or "checkpoint_type" (str "") d);
      session_id = str_of py (get_or "session_id" (str "") d);
      risk_level = str_of py (get_or "risk_level" (str "") d);
      status = str_of py (get_or "status" (str "waiting") d);
      payload = payload;
      checkpoint_id = or_else (str_of py (get_or "checkpoint_id" (str "") d)) stamp.hex;
      created_at = or_else (str_of py (get_or "created_at" (str "") d)) stamp.now;
      resolved_at = Command.optional_text py (get "resolved_at" d);
    })

-- A status that resolves is not "waiting".
resolved_not_waiting :
    (status : String) → contains resolved_statuses status ≡ true → (status == "waiting") ≡ false
unfolding String-discrete
resolved_not_waiting status h = elim (Bool-cases (status == "waiting")) [
  | inl e ↦ never (subst (λ s. contains resolved_statuses s ≡ true) (named e) h)
  | inr e ↦ e
]
  where
    never : false ≡ true → (status == "waiting") ≡ false
    never e = cc

    named : (status == "waiting") ≡ true → status ≡ "waiting"
    named e = ground (arith, e)

checkpoint_check-same :
    (c : RuntimeCheckpoint) {d : RuntimeCheckpoint} → checkpoint_check c ≡ ok d → d ≡ c
unfolding checkpoint_check
checkpoint_check-same c e = elim (Bool-cases (is_valid_checkpoint c)) [
  | inl v ↦ sym (ok_inj (rw (checkpoint_check, v) at e))
  | inr v ↦ err-absurd (rw (checkpoint_check, v) at e)
]

-- What is not waiting cannot be given any status.
with_status-resolved :
    (status : String) (resolved_at : Option String) (now : String) (c : RuntimeCheckpoint)
    → is_waiting c ≡ false
    → with_status status resolved_at now c ≡ err contract_error
unfolding with_status
with_status-resolved status resolved_at now c w =
    elim (Bool-cases (contains resolved_statuses status)) [
      | inl r ↦ rw (with_status, r, w) refl
      | inr r ↦ rw (with_status, r) refl
    ]

-- A checkpoint is resolved at most once: whatever `with_status` returns is of the status that was
-- asked for, came from a waiting checkpoint, and is refused any other status, at any time.
pub with_status_once :
    (status other : String) (resolved_at at_other : Option String) (now later : String)
    (c : RuntimeCheckpoint) {d : RuntimeCheckpoint}
    → with_status status resolved_at now c ≡ ok d
    → (is_waiting c ≡ true)
      × (d.status ≡ status)
      × (with_status other at_other later d ≡ err contract_error)
unfolding with_status
with_status_once status other resolved_at at_other now later c {d} e =
    if_rule Resolved (not (contains resolved_statuses status)) _ _ (λ _ e. err-absurd e)
      (λ r.
        if_rule Resolved (not (is_waiting c)) _ _ (λ _ e. err-absurd e)
          (λ w e.
            let same = ap (λ x. x.status) (checkpoint_check-same _ e) in
            (
              ground (arith, w),
              same,
              with_status-resolved other at_other later d (
                  subst (λ s. (s == "waiting") ≡ false) (sym same)
                    (resolved_not_waiting status (ground (arith, r)))),
            )))
      e
  where
    Resolved : Result RuntimeCheckpoint → Type 0
    Resolved m =
        m ≡ ok d
        → (is_waiting c ≡ true)
          × (d.status ≡ status)
          × (with_status other at_other later d ≡ err contract_error)
