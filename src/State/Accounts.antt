-- ===== src/State/Accounts.antt =====
-- The public accounts under `apply_state_diff`: the extension by the diff, and the signers'
-- nonces (lee/state_machine/src/state/mod.rs).
use lssa.Prelude.{
  ℕ, ◌+◌, ◌≡◌, ◌≢◌, Option, refl, sym, ◌∙◌, ap, false, none, some, List, [], ◌∷◌, arith, ◌==◌,
  if◌then◌else◌, Map, insert, lookup, lookup-insert, lookup-extend, extend, contains, IsDistinct,
  subst, inl, inr, Bool-cases, ==_iff, keys, count, Option-cases,
}
use lssa.Prelude.Options.{>>=-eq-some, some-injective, none-ne-some}
use lssa.Account.{Account, AccountId, public_account_nonce_increment, data_try_from}
use lssa.Program.Ids.{to_account_id}
use lssa.State.{
  V03State, StateDiff, Program, insert_program, account_in, get_account_by_id, increment_nonces,
  apply_state_diff, insert_new_program, extend_commitments,
}

-- The sum of all public balances.
abbrev pub total : Map Account → ℕ
total [] = 0
total ((id, a) ∷ m) = a.balance + total m

-- The balances that the entries' accounts have in a map.
abbrev pub stored_total : Map Account → Map Account → ℕ
stored_total m [] = 0
stored_total m ((id, a) ∷ es) = (account_in m id).balance + stored_total m es

pub get_account_by_id_lem :
    (s : V03State) (id : AccountId) → get_account_by_id s id ≡ account_in s.public_state id
unfolding get_account_by_id
get_account_by_id_lem s id = refl

pub account_in-insert :
    (m : Map Account) (k : AccountId) (v : Account) (id : AccountId)
    → account_in (insert k v m) id ≡ (if id == k then v else account_in m id)
account_in-insert m k v id = ground (arith, lookup-insert id k v m)

pub total-insert :
    (k : AccountId) (v : Account) (m : Map Account)
    → total (insert k v m) + (account_in m k).balance ≡ total m + v.balance
total-insert k v [] = omega arith
total-insert k v ((j, w) ∷ m) = ground (arith, total-insert k v m)

stored_total-insert :
    (k : AccountId) (v : Account) (m es : Map Account)
    → contains k (keys es) ≡ false
    → stored_total (insert k v m) es ≡ stored_total m es
stored_total-insert k v m [] h = refl
stored_total-insert k v m ((j, w) ∷ es) h =
    ground (arith, account_in-insert m k v j, stored_total-insert k v m es)

pub total-extend :
    (m es : Map Account)
    → IsDistinct (keys es)
    → total (extend m es) + stored_total m es ≡ total m + total es
total-extend m [] h = omega arith
total-extend m ((k, v) ∷ es) h = omega (
  arith,
  total-insert k v m,
  stored_total-insert k v m es h.0,
  total-extend (insert k v m) es h.1,
)

pub account_in-extend :
    (m es : Map Account) (id : AccountId)
    → IsDistinct (keys es)
    → account_in (extend m es) id ≡ elim (lookup id es) [ none ↦ account_in m id | some a ↦ a ]
account_in-extend m es id h = ground (arith, lookup-extend id m es h)

-- An account whose nonce was counted up `n` times.
pub record Signed (n : ℕ) (a b : Account) : Type 0 where
  pub same_owner : b.program_owner ≡ a.program_owner
  pub same_balance : b.balance ≡ a.balance
  pub same_data : b.data_bytes ≡ a.data_bytes
  pub counted : b.nonce ≡ a.nonce + n

increment_eq : (n n' : ℕ) → public_account_nonce_increment n ≡ some n' → n' ≡ n + 1
unfolding public_account_nonce_increment
increment_eq n n' h = ground arith

-- One more signature.
abbrev sign : AccountId → Map Account → Map Account
sign j m = insert j (record (account_in m j) { nonce = (account_in m j).nonce + 1 }) m

increment_nil : (m : Map Account) → increment_nonces m [] ≡ some m
unfolding increment_nonces
increment_nil m = refl

increment_step :
    (m m' : Map Account) (j : AccountId) (ids : List AccountId)
    → increment_nonces m (j ∷ ids) ≡ some m'
    → increment_nonces (sign j m) ids ≡ some m'
unfolding increment_nonces
increment_step m m' j ids h =
    elim (Option-cases (public_account_nonce_increment (account_in m j).nonce)) [
      | inl overflow ↦ absurd (none-ne-some (rw (overflow, increment_nonces) at h))
      | inr (n, e) ↦
          subst
            (λ k.
              increment_nonces (insert j (record (account_in m j) { nonce = k }) m) ids ≡ some m')
            (increment_eq _ n e) (rw (e, increment_nonces) at h)
    ]

Signed-refl : (a : Account) → Signed 0 a a
Signed-refl a = record {
  same_owner = refl;
  same_balance = refl;
  same_data = refl;
  counted = omega arith;
}

sign-Signed :
    (m : Map Account) (j id : AccountId)
    → Signed (if id == j then 1 else 0) (account_in m id) (account_in (sign j m) id)
sign-Signed m j id =
    let v : Account = record (account_in m j) { nonce = (account_in m j).nonce + 1 } in
    rw (account_in-insert m j v id) (elim (Bool-cases (id == j)) [
      | inl same ↦ rw same (
          subst (λ i. Signed 1 (account_in m i) v) (sym ((==_iff id j).0 same))
            (record { same_owner = refl; same_balance = refl; same_data = refl; counted = refl }))
      | inr other ↦ rw other (Signed-refl _)
    ])

Signed-trans : {m n : ℕ} {a b c : Account} → Signed m a b → Signed n b c → Signed (m + n) a c
Signed-trans h k = ground arith

count-cons : (a x : ℕ) (xs : List ℕ) → count a (x ∷ xs) ≡ (if a == x then 1 else 0) + count a xs
count-cons a x xs = ground arith

pub increment_nonces-Signed :
    (m m' : Map Account) (ids : List AccountId) (id : AccountId)
    → increment_nonces m ids ≡ some m'
    → Signed (count id ids) (account_in m id) (account_in m' id)
increment_nonces-Signed m m' [] id h =
    subst (λ k. Signed 0 (account_in m id) (account_in k id))
      (some-injective (sym (increment_nil m) ∙ h)) (Signed-refl _)
increment_nonces-Signed m m' (j ∷ ids) id h = rw (count-cons id j ids) (
    Signed-trans (sign-Signed m j id)
      (increment_nonces-Signed (sign j m) m' ids id (increment_step m m' j ids h)))

pub increment_nonces-total :
    (m m' : Map Account) (ids : List AccountId)
    → increment_nonces m ids ≡ some m'
    → total m' ≡ total m
increment_nonces-total m m' [] h = sym (ap total (some-injective (sym (increment_nil m) ∙ h)))
increment_nonces-total m m' (j ∷ ids) h = omega (
  arith,
  increment_nonces-total (sign j m) m' ids (increment_step m m' j ids h),
  total-insert j (record (account_in m j) { nonce = (account_in m j).nonce + 1 }) m,
)

-- The steps of `apply_state_diff` on the accounts: the extension and the signers, then a program.
pub apply_state_diff-steps :
    (sha256 : List ℕ → ℕ) (s s' : V03State) (diff : StateDiff)
    → apply_state_diff sha256 s diff ≡ some s'
    → (signed : Map Account) × (increment_nonces
          (extend s.public_state diff.public_diff)
          diff.signer_account_ids
        ≡ some signed)
      × (insert_new_program signed diff.program ≡ some s'.public_state)
unfolding apply_state_diff
apply_state_diff-steps sha256 s s' diff h =
    let (signed, signs, h₁) =
      >>=-eq-some
        (increment_nonces (extend s.public_state diff.public_diff) diff.signer_account_ids) _ h in
    let (set, extends, h₂) =
      >>=-eq-some (extend_commitments sha256 s.private_state.commitment_set diff.new_commitments) _
        h₁ in
    let (accounts, inserts, h₃) = >>=-eq-some (insert_new_program signed diff.program) _ h₂ in
    (signed, signs, inserts ∙ ap some (ap (λ (t : V03State). t.public_state) (some-injective h₃)))

pub apply_state_diff-accounts :
    (sha256 : List ℕ → ℕ) (s s' : V03State) (diff : StateDiff)
    → diff.program ≡ none
    → apply_state_diff sha256 s diff ≡ some s'
    → increment_nonces (extend s.public_state diff.public_diff) diff.signer_account_ids
      ≡ some s'.public_state
apply_state_diff-accounts sha256 s s' diff p h =
    let (signed, signs, inserts) = apply_state_diff-steps sha256 s s' diff h in
    signs ∙ subst (λ q. insert_new_program signed q ≡ some s'.public_state) p inserts

-- A program that is inserted elsewhere leaves an account alone.
insert_new_program-account_in :
    (m m' : Map Account) (p : Option Program) (id : AccountId)
    → ((q : Program) → p ≡ some q → to_account_id q.id ≢ id)
    → insert_new_program m p ≡ some m'
    → account_in m' id ≡ account_in m id
unfolding insert_program data_try_from
insert_new_program-account_in m m' none id away h =
    ap (λ t. account_in t id) (sym (some-injective h))
insert_new_program-account_in m m' (some q) id away h =
    let (elf, fits, h₁) = >>=-eq-some (data_try_from q.elf) _ h in
    ap (λ t. account_in t id) (sym (some-injective h₁))
    ∙ account_in-insert m (to_account_id q.id) _ id
    ∙ other_key id (to_account_id q.id) (λ e. away q refl (sym e)) _ _
  where
    other_key : (i j : ℕ) → i ≢ j → (a b : Account) → (if i == j then a else b) ≡ b
    other_key i j n a b = ground arith

-- What a diff makes of an account, before the signatures are counted.
abbrev pub diffed : V03State → StateDiff → AccountId → Account
diffed s diff id = elim (lookup id diff.public_diff) [
  | none ↦ account_in s.public_state id
  | some a ↦ a
]

-- An account after a diff with distinct accounts is the diff's or the earlier one, with its nonce
-- counted up by its signatures, unless a program is stored there.
pub apply_state_diff-Signed :
    (sha256 : List ℕ → ℕ) (s s' : V03State) (diff : StateDiff) (id : AccountId)
    → IsDistinct (keys diff.public_diff)
    → ((q : Program) → diff.program ≡ some q → to_account_id q.id ≢ id)
    → apply_state_diff sha256 s diff ≡ some s'
    → Signed (count id diff.signer_account_ids) (diffed s diff id) (account_in s'.public_state id)
apply_state_diff-Signed sha256 s s' diff id distinct away h =
    let (signed, signs, inserts) = apply_state_diff-steps sha256 s s' diff h in
    rw
      (
        insert_new_program-account_in signed s'.public_state diff.program id away inserts,
        ← account_in-extend s.public_state diff.public_diff id distinct,
      )
      (increment_nonces-Signed (extend s.public_state diff.public_diff) signed _ id signs)
