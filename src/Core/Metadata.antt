-- ===== src/Core/Metadata.antt =====
-- core/schemas.py: the metadata of an envelope, whatever the tool has put there.
use hex_agent.Base.{◌≡◌, refl, subst, String, ◌==◌, false, some, Bool-cases, inl, inr}
use hex_agent.Base.Result.{ok, ok_inj, >>=-eq-ok}
use hex_agent.Value.{
  Value, null, Fields, get, get_or, merge, last_value, Python, dict_or_empty, get-set, get-merge,
}
use hex_agent.Core.Envelope.{CapabilityResult, from_raw, set_default, is_capability_result, has}

get-set_default :
    (k j : String) (v : Value) (d : Fields) → k == j ≡ false → get k (set_default j v d) ≡ get k d
get-set_default k j v d e = elim (Bool-cases (has j d)) [
  | inl h ↦ rw (set_default, h) refl
  | inr h ↦ rw (set_default, h, get-set k j v d, e) refl
]

-- What the kernel adds to the metadata is there in the end, but for "raw_keys".
pub get-from_raw :
    (py : Python) (capability : String) (feature : Value) (raw extra : Fields) (k : String)
    (v : Value) {result : CapabilityResult}
    → from_raw py capability feature raw extra ≡ ok result
    → last_value k extra ≡ some v
    → k == "raw_keys" ≡ false
    → get k result.metadata ≡ some v
unfolding from_raw
get-from_raw py capability feature raw extra k v {result} h e raw_keys =
    elim (Bool-cases (is_capability_result raw)) [
      | inl c ↦
          let (meta, m, n) =
            >>=-eq-ok (dict_or_empty py (get_or "metadata" null raw)) _ (rw (from_raw, c) at h) in
          let (content, m', n') = >>=-eq-ok (dict_or_empty py (get_or "data" null raw)) _ n in
          subst (λ r. get k r.metadata ≡ some v) (ok_inj n') (rw (get-merge k meta extra, e) refl)
      | inr c ↦
          let (meta, m, n) =
            >>=-eq-ok (dict_or_empty py (get_or "metadata" null raw)) _ (rw (from_raw, c) at h) in
          subst (λ r. get k r.metadata ≡ some v) (ok_inj n)
            (rw
              (
                get-set_default k "raw_keys" _ (merge meta extra) raw_keys,
                get-merge k meta extra,
                e,
              )
              refl)
    ]
