-- ===== src/Billing/Acceptance/Stored.antt =====
-- That the hash of a signed acceptance is independent of the order and the unset keys of the object
-- (packages/billing/src/canonical-json.ts), which a database does not keep.
use ax10m.Common.{◌≡◌, ◌≢◌, refl, sym, ◌∙◌, ap, ap₂, true, String, List, [], ◌∷◌, arith}
use ax10m.Common.Order.{str_leb_total, str_leb_antisym, str_leb_trans}
use package.text.Mathlib.TextEquality.{eq_iff}
use ax10m.Billing.Acceptance.{
  Value, arr, obj, Values, nil, cons, Members, end, member, unset, insert_key, sort_members,
  Signing, stable_stringify, stringify_items, stringify_members, acceptance_hash_matches,
  AcceptanceParams, build_acceptance,
}

-- What a store of `jsonb` makes of an object: its unset keys are gone and two different keys may have
-- changed places, at every depth.
mutual
  pub data Stored : Value → Value → Type 0 where
    as_is : {v : Value} → Stored v v
    items : {xs ys : Values} → StoredItems xs ys → Stored (arr xs) (arr ys)
    object : {ms ns : Members} → StoredMembers ms ns → Stored (obj ms) (obj ns)

  pub data StoredItems : Values → Values → Type 0 where
    none_left : StoredItems nil nil
    item :
        {v w : Value}
        → {xs ys : Values} → Stored v w
        → StoredItems xs ys
        → StoredItems (cons v xs) (cons w ys)

  pub data StoredMembers : Members → Members → Type 0 where
    ended : StoredMembers end end
    kept :
        {k : String}
        → {v w : Value} → {ms ns : Members} → Stored v w
        → StoredMembers ms ns
        → StoredMembers (member k v ms) (member k w ns)
    dropped : {k : String} → {ms ns : Members} → StoredMembers ms ns → StoredMembers (unset k ms) ns
    swapped :
        {j k : String}
        → {v w : Value} → {ms : Members} → j ≢ k
        → StoredMembers (member j v (member k w ms)) (member k w (member j v ms))
    followed_by :
        {ms ns os : Members} → StoredMembers ms ns → StoredMembers ns os → StoredMembers ms os

insert_key-swap :
    (j k : String) (v w : String) (ms : List (String × String))
    → j ≢ k
    → insert_key j v (insert_key k w ms) ≡ insert_key k w (insert_key j v ms)
unfolding insert_key
insert_key-swap j k v w [] n = ground (arith, str_leb_total j k, str_leb_antisym j k)
insert_key-swap j k v w ((i, x) ∷ ms) n = ground (
  arith,
  str_leb_total j k,
  str_leb_antisym j k,
  str_leb_trans j k i,
  str_leb_trans k j i,
  str_leb_total j i,
  str_leb_total k i,
  insert_key-swap j k v w ms n,
)

module _ {Real : Type 0} (h : Signing Real) where
  mutual
    unfolding stable_stringify sort_members

    stable_stringify-Stored :
        {v w : Value} → Stored v w → stable_stringify h v ≡ stable_stringify h w
    stable_stringify-Stored as_is = refl
    stable_stringify-Stored (items s) = rw (stringify_items-Stored s) refl
    stable_stringify-Stored (object s) = rw (sort_members-Stored s) refl

    stringify_items-Stored :
        {xs ys : Values} → StoredItems xs ys → stringify_items h xs ≡ stringify_items h ys
    stringify_items-Stored none_left = refl
    stringify_items-Stored (item s ss) =
        ap₂ (λ x xs. x ∷ xs) (stable_stringify-Stored s) (stringify_items-Stored ss)

    sort_members-Stored :
        {ms ns : Members}
        → StoredMembers ms ns
        → sort_members (stringify_members h ms) ≡ sort_members (stringify_members h ns)
    sort_members-Stored ended = refl
    sort_members-Stored (kept {k} s ss) =
        ap₂ (insert_key k) (stable_stringify-Stored s) (sort_members-Stored ss)
    sort_members-Stored (dropped s) = sort_members-Stored s
    sort_members-Stored (swapped {j} {k} {v} {w} {ms} n) =
        insert_key-swap j k (stable_stringify h v) (stable_stringify h w)
          (sort_members (stringify_members h ms)) n
    sort_members-Stored (followed_by s t) = sort_members-Stored s ∙ sort_members-Stored t

  -- The hash of an acceptance matches its content when it has been built and signed, whatever account,
  -- signer and terms it is for, and it still matches when the record comes back from a store that has
  -- dropped the keys without a value and has put the others in another order, at any depth.
  pub build_acceptance-matches :
      (body : String) (p : AcceptanceParams h) (stored : Members)
      → StoredMembers ((build_acceptance h body p).core) stored
      → (acceptance_hash_matches h (build_acceptance h body p) ≡ true)
        × (acceptance_hash_matches h (record (build_acceptance h body p) { core = stored }) ≡ true)
  unfolding build_acceptance acceptance_hash_matches
  build_acceptance-matches body p stored s =
      let same = stable_stringify-Stored (object s) in
      ((eq_iff _ _).1 refl, (eq_iff _ _).1 (ap h.sha256_hex (sym same)))
