-- ===== src/Syn/User/Section.antt =====
-- A critical section of src/syn/synuser.c on the lock stack.
use jiajia.Prelude.{
  ℕ, suc, ◌<◌, ◌≡◌, refl, ap, ap₂, ◌∙◌, sym, subst, arith, true, false, Option, some, List, [],
  ◌==◌, ltb, update, update_self, update_ne, length,
}
use jiajia.Prelude.Bytes.{le_bytes, length-le_bytes}
use jiajia.Constants.{max_locks, max_stack_size}
use jiajia.Msg.Types.{MsgOp, acq, rel, JiaMsg, appendmsg-some}
use jiajia.Syn.Notices.{Notice, Chain, notices}
use jiajia.Syn.Notices.Pack.{◌>>=◌}
use jiajia.Syn.Notices.Pack.Uniform.{SmallNodes}
use jiajia.Syn.Notices.Send.{sendwtnts}
use jiajia.Syn.Notices.Send.Stream.{stream_stack}
use jiajia.Syn.Server.{emptied}
use jiajia.Syn.User.{
  LockStack, Effect, save_all, pushstack, pop_entry, popstack, is_held, puts, request, acquire,
  jia_lock, jia_unlock,
}

then_some :
    {A B : Type 0} (o : Option A) (f : A → B) (a : A)
    → o ≡ some a
    → (o >>= (λ x. some (f x))) ≡ some (f a)
then_some o f a e = ap (λ p. p >>= (λ x. some (f x))) e

module _ (jia_pid hostc : ℕ) where
  request-some :
      (op : MsgOp) (scope id : ℕ) → (m : JiaMsg) × (request jia_pid hostc op scope id ≡ some m)
  unfolding request
  request-some op scope id =
      (_, then_some _ _ _ (appendmsg-some [] (le_bytes 4 id) (omega (arith, length-le_bytes 4 id))))

  acquire-some :
      (myscope : ℕ → ℕ) (lock : ℕ)
      → (calls : List Effect) × (acquire jia_pid hostc myscope lock ≡ some calls)
  unfolding acquire
  acquire-some myscope lock =
      let (m, e) = request-some acq (myscope lock) lock in (_, then_some _ _ _ e)

  sendwtnts-some :
      (fuel : ℕ) (myscope : ℕ → ℕ) (lock : ℕ) (c : Chain)
      → length c < fuel
      → SmallNodes c
      → (ms : List JiaMsg) × (sendwtnts jia_pid hostc fuel false myscope lock c ≡ some ms)
  unfolding sendwtnts
  sendwtnts-some fuel myscope lock c h small =
      let (ps, e, _, _) = stream_stack rel fuel lock c h small in (_, then_some _ _ _ e)

  -- With more than one host, a lock below Maxlocks that is not held is taken on a stack with room
  -- for it and given up again, if the chain of the section has nodes of at most Maxwtnts notices
  -- and the fuel is above their number: the stack is then as deep as before, with the same locks;
  -- its top has what it had, with the notices saved before the section and those of the section
  -- saved into it; the entries below are as before.
  pub section_restores :
      (fuel : ℕ) (myscope : ℕ → ℕ) (before within : List Notice) (lock d : ℕ) (lockid : ℕ → ℕ)
      (wtntp : ℕ → Chain)
      → (hostc == 1) ≡ false
      → lock < max_locks
      → is_held lock lockid (suc d) ≡ false
      → suc d < max_stack_size
      → length (save_all (wtntp (suc d)) within) < fuel
      → SmallNodes (save_all (wtntp (suc d)) within)
      → (s₁ s₂ : LockStack) × (calls : List Effect) × (ms : List JiaMsg) × (jia_lock jia_pid hostc
            myscope before lock
            (record { lockid = lockid; wtntp = wtntp; depth = suc d })
          ≡ some (s₁, calls))
        × (jia_unlock jia_pid hostc fuel myscope within lock s₁ ≡ some (s₂, puts ms))
        × (s₂.depth ≡ suc d)
        × ((i : ℕ) → i < suc d → s₂.lockid i ≡ lockid i)
        × (s₂.wtntp d
            ≡ save_all (save_all (wtntp d) before) (notices (save_all (wtntp (suc d)) within)))
        × ((i : ℕ) → i < d → s₂.wtntp i ≡ wtntp i)
  unfolding jia_lock jia_unlock pushstack popstack pop_entry
  section_restores fuel myscope before within lock d lockid wtntp many small free room enough
        narrow =
      let e₁ : ltb lock max_locks ≡ true = ground arith in
      let e₂ : ltb (suc d) max_stack_size ≡ true = ground arith in
      let lockid₁ = update lockid (suc d) lock in
      let wtntp₁ = update wtntp d (save_all (wtntp d) before) in
      let chain = save_all (wtntp₁ (suc d)) within in
      let wtntp₂ = update wtntp₁ (suc d) chain in
      let same : wtntp₂ (suc d) ≡ save_all (wtntp (suc d)) within =
        update_self wtntp₁ (suc d) chain
        ∙ ap (λ c. save_all c within)
            (update_ne wtntp d (save_all (wtntp d) before) (suc d) (omega arith)) in
      let merged = save_all (wtntp₂ d) (notices (wtntp₂ (suc d))) in
      let below_ : wtntp₂ d ≡ save_all (wtntp d) before =
        update_ne wtntp₁ (suc d) chain d (omega arith)
        ∙ update_self wtntp d (save_all (wtntp d) before) in
      let e₃ : (lock == lockid₁ (suc d)) ≡ true = ground (arith, update_self lockid (suc d) lock) in
      let (calls, asks) = acquire-some myscope lock in
      let (ms, sends) =
        sendwtnts-some fuel myscope (lockid₁ (suc d)) (wtntp₂ (suc d))
          (subst (λ c. length c < fuel) (sym same) enough) (subst SmallNodes (sym same) narrow) in
      (
        record { lockid = lockid₁; wtntp = wtntp₁; depth = suc (suc d) },
        record {
          lockid = lockid₁;
          wtntp = update (update wtntp₂ d merged) (suc d) (emptied (wtntp₂ (suc d)));
          depth = suc d;
        },
        calls,
        ms,
        rw (many, e₁, free, asks, e₂) refl,
        rw (many, e₁, e₃, sends) refl,
        refl,
        (λ i lt. update_ne lockid (suc d) lock i (omega arith)),
        update_ne (update wtntp₂ d merged) (suc d) _ d (omega arith)
            ∙ update_self wtntp₂ d merged
            ∙ ap₂ (λ a b. save_all a (notices b)) below_ same,
        λ i lt.
            update_ne (update wtntp₂ d merged) (suc d) _ i (omega arith)
            ∙ update_ne wtntp₂ d merged i (omega arith)
            ∙ update_ne wtntp₁ (suc d) chain i (omega arith)
            ∙ update_ne wtntp d _ i (omega arith),
      )
