-- ===== src/Provider/Resolving.antt =====
-- src/ProviderImpl.hpp: after `_resolveMonaAddresses`, every member of the group has an address; and
-- the loop that asks a member ends with its first answer.
use mochi_colza.Base.{
  ℕ, zero, suc, ◌+◌, ◌-◌, ◌%◌, ◌≤◌, ◌<◌, ◌≡◌, ◌⊎◌, inl, inr, refl, ap, ◌∙◌, Bool, true, false, ◌||◌,
  none, some, List, [], ◌∷◌, arith, nat_eq, length, get_elem?, String,
}
use native.Mathlib.Nat.{mod-eq_of_lt, add-mod_right}
use mochi_colza.Base.Map.{Map, lookup}
use mochi_colza.Base.OrderedMap.{insert_new, lookup-insert}
use mochi_colza.Group.{MemberId}
use mochi_colza.Backend.{NaAddr}
use mochi_colza.Provider.State.{Provider}
use mochi_colza.Provider.Membership.{
  Mona, Resolution, resolved, failed, out_of_fuel, ask_until, resolve_loop, finish_resolving,
  resolve_mona_addresses,
}

-- If a member answers its k-th call, and no call before, the loop ends with that answer, given fuel
-- for k + 1 calls: the fuel is enough.
pub ask_until_first :
    (mona : Mona) (id : MemberId) (k n fuel : ℕ) (text : String)
    → ((j : ℕ) → n ≤ j → j < n + k → mona.ask id j ≡ none)
    → mona.ask id (n + k) ≡ some text
    → k < fuel
    → ask_until mona fuel id n ≡ some text
unfolding ask_until
ask_until_first mona id k n zero text silent answers enough = absurd (omega arith)
ask_until_first mona id zero n (suc fuel) text silent answers enough =
    let now : mona.ask id n ≡ some text = ap (mona.ask id) (omega arith) ∙ answers in
    grind (arith, now)
ask_until_first mona id (suc k) n (suc fuel) text silent answers enough =
    let later : mona.ask id (n + 1 + k) ≡ some text = ap (mona.ask id) (omega arith) ∙ answers in
    let quiet : mona.ask id n ≡ none = silent n (omega arith) (omega arith) in
    let rest =
      ask_until_first mona id k (n + 1) fuel text
        (λ j low high. silent j (omega arith) (omega arith)) later (omega arith) in
    grind (arith, quiet, rest)

abbrev pub has : MemberId → Map MemberId NaAddr → Bool
has id m = elim (lookup id m) [ none ↦ false | some a ↦ true ]

has-insert_new :
    (id : MemberId) (new m : Map MemberId NaAddr)
    → has id (insert_new new m) ≡ (has id new || has id m)
unfolding insert_new lookup
has-insert_new id [] m = ground arith
has-insert_new id ((k, v) ∷ new) m =
    grind (arith, has-insert_new id new, lookup-insert {V = NaAddr} k id v m)

module _ (mona : Mona) (fuel : ℕ) (self_id : MemberId) (self_rank size : ℕ) (ids : List MemberId)
    (known : Map MemberId NaAddr) where
  loop_keeps :
      (left i : ℕ) (tmp result : Map MemberId NaAddr) (id : MemberId)
      → resolve_loop mona fuel self_id self_rank size ids known left i tmp ≡ resolved result
      → has id tmp ≡ true
      → has id result ≡ true
  unfolding resolve_loop
  loop_keeps zero i tmp result id e h = ground arith
  loop_keeps (suc left) i tmp result id e h =
      grind (arith, loop_keeps left (i + 1), lookup-insert {V = NaAddr})

  loop_covers :
      (left i m : ℕ) (tmp result : Map MemberId NaAddr) (id : MemberId)
      → resolve_loop mona fuel self_id self_rank size ids known left i tmp ≡ resolved result
      → m < left
      → get_elem? ids ((self_rank + (i + m)) % size) ≡ some id
      → (has id result || has id known) ≡ true
  unfolding resolve_loop
  loop_covers zero i m tmp result id e less at = absurd (omega arith)
  loop_covers (suc left) i zero tmp result id e less at =
      let now : get_elem? ids ((self_rank + i) % size) ≡ some id =
        ap (λ (j : ℕ). get_elem? ids ((self_rank + j) % size)) (omega arith) ∙ at in
      grind (arith, now, loop_keeps left (i + 1), lookup-insert {V = NaAddr})
  loop_covers (suc left) i (suc m) tmp result id e less at =
      let later : get_elem? ids ((self_rank + (i + 1 + m)) % size) ≡ some id =
        ap (λ (j : ℕ). get_elem? ids ((self_rank + j) % size)) (omega arith) ∙ at in
      let covered : (t : Map MemberId NaAddr)
          → resolve_loop mona fuel self_id self_rank size ids known left (i + 1) t ≡ resolved result
          → (has id result || has id known) ≡ true =
        λ t rest. loop_covers left (i + 1) m t result id rest (omega arith) later in
      grind (arith, covered)

-- From one's own rank on, the loop comes to every rank of a group of n.
rotation : (n r j : ℕ) → r < n → j < n → (m : ℕ) × (m < n) × ((r + (0 + m)) % n ≡ j)
rotation n r j rn jn = elim (le_total r j) [
  | inl le ↦ (j - r, omega arith, ap (λ (t : ℕ). t % n) (omega arith) ∙ mod-eq_of_lt jn)
  | inr le ↦ elim (eq_or_less j r le) [
    | inl same ↦ (0, omega arith, ap (λ (t : ℕ). t % n) (omega arith) ∙ mod-eq_of_lt jn)
    | inr less ↦ (
      j + n - r,
      omega arith,
      ap (λ (t : ℕ). t % n) (omega arith) ∙ add-mod_right j n ∙ mod-eq_of_lt jn,
    )
  ]
]
  where
    le_total : (a b : ℕ) → (a ≤ b) ⊎ (b ≤ a)
    le_total a b = ground arith

    eq_or_less : (a b : ℕ) → a ≤ b → (a ≡ b) ⊎ (a < b)
    eq_or_less a b h = ground arith

finish_resolved :
    {B J : Type 0} (p q : Provider B J) (r : Resolution (Map MemberId NaAddr))
    → finish_resolving p r ≡ resolved q
    → (tmp : Map MemberId NaAddr) × (r ≡ resolved tmp)
      × (q.mona_addresses ≡ insert_new tmp p.mona_addresses)
unfolding finish_resolving
finish_resolved p q (resolved tmp) e = (tmp, refl, ground arith)
finish_resolved p q failed e = absurd (ground arith)
finish_resolved p q out_of_fuel e = absurd (ground arith)

-- If `_resolveMonaAddresses` comes to its end, at a provider whose rank is one of the group's, every
-- member of the group has an address.
pub resolved_covers :
    {B J : Type 0} (mona : Mona) (fuel : ℕ) (self_id : MemberId) (self_rank j : ℕ)
    (ids : List MemberId) (p q : Provider B J) (id : MemberId)
    → resolve_mona_addresses mona fuel self_id self_rank ids p ≡ resolved q
    → self_rank < length ids
    → j < length ids
    → get_elem? ids j ≡ some id
    → has id q.mona_addresses ≡ true
unfolding resolve_mona_addresses
resolved_covers mona fuel self_id self_rank j ids p q id e rank_in j_in at =
    let (m, m_in, is_j) = rotation (length ids) self_rank j rank_in j_in in
    let there = ap (get_elem? ids) is_j ∙ at in
    let (tmp, ends, q_is) = finish_resolved p q _ e in
    let covered =
      loop_covers mona fuel self_id self_rank (length ids) ids p.mona_addresses (length ids) 0 m []
        tmp id ends m_in there in
    ap (has id) q_is ∙ has-insert_new id tmp p.mona_addresses ∙ covered
