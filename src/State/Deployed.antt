-- ===== src/State/Deployed.antt =====
-- The account of a program that a diff inserts (lee/state_machine/src/state/mod.rs).
use lssa.Prelude.{
  ℕ, ◌≡◌, refl, sym, ◌∙◌, ap, subst, Option, some, List, arith, ◌==◌, if◌then◌else◌, lookup,
  lookup-insert, Map, extend,
}
use lssa.Prelude.Options.{>>=-eq-some, some-injective}
use lssa.Account.{Account, default_account, data_try_from}
use lssa.Program.Ids.{to_account_id}
use lssa.State.{
  V03State, StateDiff, Program, apply_state_diff, get_program, program_storage_owner,
  insert_program, insert_new_program, increment_nonces, extend_commitments,
}

-- The account that stores a program's code.
abbrev pub program_account : List ℕ → Account
program_account elf = record default_account {
  program_owner = program_storage_owner;
  data_bytes = elf;
}

same_key : (k : ℕ) (a b : Option Account) → (if k == k then a else b) ≡ a
same_key k a b = ground arith

insert_program-lookup :
    (m m' : Map Account) (p : Program)
    → insert_program m p ≡ some m'
    → lookup (to_account_id p.id) m' ≡ some (program_account p.elf)
unfolding insert_program data_try_from
insert_program-lookup m m' p h =
    let (elf, fits, h₁) = >>=-eq-some (data_try_from p.elf) _ h in
    let same : elf ≡ p.elf = ground arith in
    ap (lookup (to_account_id p.id)) (sym (some-injective h₁))
    ∙ lookup-insert (to_account_id p.id) (to_account_id p.id) (program_account elf) m
    ∙ same_key (to_account_id p.id) _ _
    ∙ ap (λ bytes. some (program_account bytes)) same

lookup-get_program :
    (s : V03State) (id : ℕ) (elf : List ℕ)
    → lookup (to_account_id id) s.public_state ≡ some (program_account elf)
    → get_program s id ≡ some (program_account elf)
unfolding get_program
lookup-get_program s id elf h = rw (h, get_program) refl

pub apply_state_diff-program :
    (sha256 : List ℕ → ℕ) (s s' : V03State) (diff : StateDiff) (p : Program)
    → diff.program ≡ some p
    → apply_state_diff sha256 s diff ≡ some s'
    → get_program s' p.id ≡ some (program_account p.elf)
unfolding apply_state_diff
apply_state_diff-program sha256 s s' diff p e h =
    let (signed, _, h₁) =
      >>=-eq-some
        (increment_nonces (extend s.public_state diff.public_diff) diff.signer_account_ids) _ h in
    let (set, _, h₂) =
      >>=-eq-some (extend_commitments sha256 s.private_state.commitment_set diff.new_commitments) _
        h₁ in
    let (accounts, made, h₃) = >>=-eq-some (insert_new_program signed diff.program) _ h₂ in
    let stored : accounts ≡ s'.public_state =
      ap (λ (u : V03State). u.public_state) (some-injective h₃) in
    lookup-get_program s' p.id p.elf (
      ap (lookup (to_account_id p.id)) (sym stored)
      ∙ insert_program-lookup signed accounts p
          (subst (λ q. insert_new_program signed q ≡ some accounts) e made))
