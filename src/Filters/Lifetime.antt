-- ===== src/Filters/Lifetime.antt =====
-- How long a filter is kept, and what is left when it is removed.
use mpcq_json_rpc_relay.Prelude.{
  ℕ, ◌+◌, ◌≡◌, refl, ap, ◌∙◌, true, false, none, some, Text, remove, text_eq_refl, lookup-insert,
  lookup-remove, text_eq, if◌then◌else◌, leb, Bool-cases, inl, inr,
}
use mpcq_json_rpc_relay.Prelude.Results.{ok, err}
use mpcq_json_rpc_relay.Common.{filter_not_found, json_rpc, MirrorNode, Config}
use mpcq_json_rpc_relay.Filters.{
  Filter, Filters, get_cache_key, unexpired, get_filter_from_cache, update_filter_cache,
  require_filters_enabled, uninstall_filter, get_filter_logs, get_filter_changes,
}

get_cache_key-eq : (a b : Text) → text_eq (get_cache_key a) (get_cache_key b) ≡ text_eq a b
unfolding get_cache_key text_eq
get_cache_key-eq a b = refl

-- A filter that is stored is found until its time is over, and no other is touched.
pub get-update_filter_cache :
    (C : Config) (s : Filters) (now later : ℕ) (a b : Text) (filter : Filter)
    → get_filter_from_cache (update_filter_cache C s now a filter) later b ≡ (
        if text_eq a b
        then (if leb later (now + C.filter_ttl) then some filter else none)
        else get_filter_from_cache s later b)
unfolding get_filter_from_cache update_filter_cache unexpired
get-update_filter_cache C s now later a b filter =
    ap (unexpired later)
      (lookup-insert (get_cache_key a) (get_cache_key b) (filter, now + C.filter_ttl) s)
    ∙ rw (get_cache_key-eq a b)
        (elim (Bool-cases (text_eq a b)) [ inl e ↦ rw e refl | inr e ↦ rw e refl ])

get-remove :
    (s : Filters) (later : ℕ) (a b : Text)
    → get_filter_from_cache (remove (get_cache_key a) s) later b
      ≡ (if text_eq a b then none else get_filter_from_cache s later b)
unfolding get_filter_from_cache unexpired
get-remove s later a b =
    ap (unexpired later) (lookup-remove (get_cache_key a) (get_cache_key b) s)
    ∙ rw (get_cache_key-eq a b)
        (elim (Bool-cases (text_eq a b)) [ inl e ↦ rw e refl | inr e ↦ rw e refl ])

module _ (M : MirrorNode) (C : Config) (enabled : C.filter_api_enabled ≡ true) where
  pub enabled_lem : require_filters_enabled M C ≡ ok tt
  unfolding require_filters_enabled
  enabled_lem = rw enabled refl

  missing_lem :
      (s : Filters) (now t t' : ℕ) (a : Text)
      → get_filter_from_cache s now a ≡ none
      → (get_filter_changes M C s now t t' a ≡ err (json_rpc filter_not_found))
        × (get_filter_logs M C s now t a ≡ err (json_rpc filter_not_found))
        × (uninstall_filter M C s now a ≡ ok (s, false))
  unfolding get_filter_changes get_filter_logs uninstall_filter
  missing_lem s now t t' a gone =
      (rw (enabled_lem, gone) refl, rw (enabled_lem, gone) refl, rw (enabled_lem, gone) refl)

  -- Removing a filter answers true. From then on, at any time, its changes and its logs are refused
  -- with FILTER_NOT_FOUND and removing it again answers false; the other filters stay.
  pub uninstall_filter_lem :
      (s : Filters) (now : ℕ) (a : Text) (filter : Filter)
      → get_filter_from_cache s now a ≡ some filter
      → (s' : Filters) × (uninstall_filter M C s now a ≡ ok (s', true))
        × ((later t t' : ℕ)
            → (get_filter_changes M C s' later t t' a ≡ err (json_rpc filter_not_found))
              × (get_filter_logs M C s' later t a ≡ err (json_rpc filter_not_found))
              × (uninstall_filter M C s' later a ≡ ok (s', false)))
        × ((later : ℕ) (b : Text)
            → text_eq a b ≡ false
            → get_filter_from_cache s' later b ≡ get_filter_from_cache s later b)
  unfolding uninstall_filter
  uninstall_filter_lem s now a filter there = (
    remove (get_cache_key a) s,
    rw (enabled_lem, there) refl,
    (λ later t t'.
        missing_lem (remove (get_cache_key a) s) later t t' a
          (rw (get-remove s later a a, text_eq_refl a) refl)),
    (λ later b differ. rw (get-remove s later a b, differ) refl),
  )
