-- ===== src/Runtime.antt =====
-- `Interpreter::call` of core/src/runtime.rs: the message of a transaction chooses a method.
use ori.Base.{
  ◌≡◌, refl, Option, none, some, [], ◌∷◌, ◌==◌, if◌then◌else◌, arith, Option-cases, Bool-cases, inl,
  inr,
}
use ori.Types.Hash.{Bytes, Address, same_bytes}
use ori.External.{External}
use ori.State.{StateDb}
use ori.Balance.{exec_transfer}
use ori.Staking.{exec_validate, exec_deposit}

-- A message in two at its first dot, as `position` and `split_at` do it: the dot stays in front of
-- the second part.
split_dot : Bytes → Option (Bytes × Bytes)
split_dot [] = none
split_dot (x ∷ xs) =
    if x == 46
    then some ([], x ∷ xs)
    else elim (split_dot xs) [ none ↦ none | some (before, behind) ↦ some (x ∷ before, behind) ]

-- the names of the modules and of their methods
abbrev name_balance : Bytes
name_balance = 98 ∷ 97 ∷ 108 ∷ 97 ∷ 110 ∷ 99 ∷ 101 ∷ []

abbrev name_staking : Bytes
name_staking = 115 ∷ 116 ∷ 97 ∷ 107 ∷ 105 ∷ 110 ∷ 103 ∷ []

abbrev name_transfer : Bytes
name_transfer = 116 ∷ 114 ∷ 97 ∷ 110 ∷ 115 ∷ 102 ∷ 101 ∷ 114 ∷ []

abbrev name_validate : Bytes
name_validate = 118 ∷ 97 ∷ 108 ∷ 105 ∷ 100 ∷ 97 ∷ 116 ∷ 101 ∷ []

abbrev name_deposit : Bytes
name_deposit = 100 ∷ 101 ∷ 112 ∷ 111 ∷ 115 ∷ 105 ∷ 116 ∷ []

module _ (ext : External) where
  pub call : Address → Bytes → Bytes → StateDb ext.trie → Option (StateDb ext.trie)
  unfolding split_dot
  call caller msg input s = elim (split_dot msg) [
    | none ↦ some s
    | some (name, func) ↦
        if same_bytes name name_balance
        then (if same_bytes func name_transfer then exec_transfer ext caller input s else some s)
        else if same_bytes name name_staking
        then (if same_bytes func name_validate
            then exec_validate ext caller input s
            else if same_bytes func name_deposit
            then exec_deposit ext caller input s
            else some s)
        else some s
  ]

-- The second part starts with the dot.
split_dot_behind :
    (msg : Bytes) {name func : Bytes}
    → split_dot msg ≡ some (name, func)
    → (rest : Bytes) × (func ≡ 46 ∷ rest)
unfolding split_dot
split_dot_behind [] e = cc
split_dot_behind (x ∷ xs) {name} {func} e = elim (Bool-cases (x == 46)) [
  | inl dot ↦ (xs, ground (arith, e, dot))
  | inr other ↦ elim (Option-cases (split_dot xs)) [
    | inl none' ↦ absurd (ground (arith, e, other, none'))
    | inr ((a, b), found) ↦
        let (rest, at) = split_dot_behind xs found in (rest, ground (arith, e, other, found, at))
  ]
]

-- No message reaches a method: whatever a transaction calls, the state stays as it is.
pub call_does_nothing :
    (ext : External) (caller : Address) (msg input : Bytes) (s : StateDb ext.trie)
    → call ext caller msg input s ≡ some s
unfolding call
call_does_nothing ext caller msg input s = elim (Option-cases (split_dot msg)) [
  | inl e ↦ rw (call, e) refl
  | inr ((name, func), e) ↦
      let (rest, at) = split_dot_behind msg e in rw (call, e) (rw at (ground arith))
]
