-- ===== src/Swap/Deciding.antt =====
-- When a swap can be paid out, and to whom.
use cosmwasm_plus.Prelude.{
  ℕ, ◌≡◌, true, false, some, List, [], ok, err, nat_eq, bytes_eq, arith, inl, inr, ◌⊎◌,
  if◌then◌else◌, Bool-cases, bytes_beq_iff,
}
use cosmwasm_plus.Std.{Std, BlockInfo}
use cosmwasm_plus.Storage.{may_load, remove}
use cosmwasm_plus.Storage.Laws.{may_load-save}
use cosmwasm_plus.Storage.Distinct.{remove-save}
use cosmwasm_plus.Expiration.{is_expired}
use cosmwasm_plus.Funds.{Balance}
use cosmwasm_plus.Swap.{
  Hashing, AtomicSwap, CreateMsg, State, Env, ExecuteMsg, release, refund, Response, expired,
  not_expired, parse_hex_32, send_tokens, execute_create, execute_release, execute_refund, execute,
}
use cosmwasm_plus.Swap.Steps.{release_steps, refund_steps, create_steps, received, execute-cases}

module _ ⦃api : Std⦄ (crypto : Hashing) where
  -- A successful message pays nothing out, or it pays one stored swap out and removes it: to the
  -- recipient, before the swap expires and for a preimage of its hash, or to the source, after it has
  -- expired.
  pub swap_pays :
      (env : Env) (msg : ExecuteMsg) (s s' : State) (r : Response)
      → execute crypto env msg s ≡ ok (s', r)
      → (r ≡ [])
        ⊎ ((id : List ℕ) × (swap : AtomicSwap) × (may_load id s ≡ some swap)
            × (s' ≡ remove id s)
            × (((r ≡ send_tokens swap.recipient swap.balance)
                  × (is_expired swap.expires env.block ≡ false)
                  × ((preimage : List ℕ) × (bin : List ℕ) × (msg ≡ release id preimage)
                      × (parse_hex_32 crypto preimage ≡ ok bin)
                      × (crypto.sha256 bin ≡ swap.hash)))
                ⊎ (r ≡ send_tokens swap.source swap.balance)
                  × (is_expired swap.expires env.block ≡ true)
                  × (msg ≡ refund id)))
  swap_pays env msg s s' r p = elim (execute-cases crypto env msg s s' r p) [
    | inl (from, m, e) ↦
        let (_, _, _, _, _, _, silent) =
          create_steps crypto env.block from m (received env msg) s e in
        inl silent
    | inr (inl (id, preimage, is, e)) ↦
        let (swap, bin, stored, before, parsed, opens, made, sends) =
          release_steps crypto env.block id preimage s e in
        inr (id, swap, stored, made, inl (sends, before, (preimage, bin, is, parsed, opens)))
    | inr (inr (id, is, e)) ↦
        let (swap, stored, after, made, sends) = refund_steps env.block id s e in
        inr (id, swap, stored, made, inr (sends, after, is))
  ]

  -- In every block there is exactly one way out of a stored swap: until it expires, anyone who shows
  -- a preimage of its hash releases the balance to the recipient, and a refund is refused; from then
  -- on anyone sends the balance back to the source, and a release is refused.
  pub one_way_out :
      (env : Env) (id preimage bin : List ℕ) (swap : AtomicSwap) (s : State)
      → may_load id s ≡ some swap
      → parse_hex_32 crypto preimage ≡ ok bin
      → crypto.sha256 bin ≡ swap.hash
      → (execute crypto env (release id preimage) s ≡ (
          if is_expired swap.expires env.block
          then err expired
          else ok (remove id s, send_tokens swap.recipient swap.balance)))
        × (execute crypto env (refund id) s ≡ (
            if is_expired swap.expires env.block
            then ok (remove id s, send_tokens swap.source swap.balance)
            else err not_expired))
  unfolding execute execute_release execute_refund
  one_way_out env id preimage bin swap s stored parsed opens =
      let same = bytes_beq_iff (crypto.sha256 bin) swap.hash in
      elim (Bool-cases (is_expired swap.expires env.block)) [
        | inl over ↦ (ground arith, ground arith)
        | inr before ↦ (ground arith, ground arith)
      ]

  -- A swap that has just been made is released in any block in which it has not expired, by anyone
  -- who shows a preimage of the hash that it was made with: the recipient gets exactly the balance
  -- that was put in, and the swaps are as they were before the swap was made.
  pub release-create :
      (block later : BlockInfo) (sender : ℕ) (msg : CreateMsg) (balance : Balance)
      (preimage bin hash : List ℕ) (s s' : State) (r : Response)
      → execute_create crypto block sender msg balance s ≡ ok (s', r)
      → parse_hex_32 crypto msg.hash ≡ ok hash
      → parse_hex_32 crypto preimage ≡ ok bin
      → crypto.sha256 bin ≡ hash
      → is_expired msg.expires later ≡ false
      → execute_release crypto later msg.id preimage s' ≡ ok (s, send_tokens msg.recipient balance)
  unfolding execute_release
  release-create block later sender msg balance preimage bin hash s s' r p hashed parsed opens
        before =
      let (hash', hashed', free, _, _, made, _) =
        create_steps crypto block sender msg balance s p in
      let same_hash : hash' ≡ hash = ground arith in
      let swap : AtomicSwap = record {
        hash = hash';
        recipient = msg.recipient;
        source = sender;
        expires = msg.expires;
        balance = balance;
      } in
      let stored : may_load msg.id s' ≡ some swap =
        rw made (ground (arith, may_load-save msg.id msg.id swap s, bytes_beq_iff msg.id msg.id)) in
      let back : remove msg.id s' ≡ s = rw made (remove-save msg.id swap s free) in
      let same = bytes_beq_iff (crypto.sha256 bin) hash' in ground arith
