-- ===== src/Lock/Wopi/Promise.antt =====
-- The WOPI host does what its register does.
use dyson_fs.Base.{
  Bool, Option, Option-cases, Text, [], arith, codes, false, if_both₂, if◌then◌else◌, inl, inr,
  is_blank, is_blank-trim_space, none, pos, refl, sym, text_discrete, to_upper, trim_space, true, ℕ,
  ◌==◌, ◌∙◌, ◌∷◌, ◌≡◌, ◌≢◌, nat_eq, text_equality,
}
use dyson_fs.Lock.{LockTable, lock_of, clean_expired_locks, get_lock, effective_timeout}
use dyson_fs.Lock.Exclusive.{release_lock-IsExclusive}
use dyson_fs.Lock.Rows.{
  IsExclusive, live_at, lock_of-clean_expired_locks, clean_expired_locks-IsExclusive,
}
use dyson_fs.Lock.Spec.{held_at, acquire_lock-Refines, refresh_lock-Refines, release_lock-Refines}
use dyson_fs.Lock.Wopi.Register.{
  Register, stays, lock_register, refresh_register, unlock_register, relock_register, wopi_register,
}
use dyson_fs.Lock.Wopi.{
  WopiReply, invalid_lock_operation, WopiClaims, can_edit, handle_lock, refuse, reply, account_of,
  token_or_empty, wopi_request, lock_case, refresh_case, unlock_case, relock_case, dispatch,
}

-- The table after a request and its reply agree with the register; other files keep their locks.
pub record Agrees (now : ℕ) (file_id : Text) (t u : LockTable) (r : WopiReply) (p : Register)
    : Type 0 where
  pub holder : held_at now u file_id ≡ p.0
  pub answer : r ≡ p.1
  pub others : (f : Text) → f ≢ file_id → held_at now u f ≡ held_at now t f

abbrev Does : ℕ → Text → LockTable → LockTable × WopiReply → Register → Type 0
Does now file_id t r p = Agrees now file_id t r.0 r.1 p

thirty_minutes : effective_timeout (pos 1800) ≡ 1800
unfolding effective_timeout
thirty_minutes = refl

-- The case lemmas run on a table without expired rows.
module _ (now id : ℕ) (file_id : Text) (account : Option Text) {t : LockTable} (e : IsExclusive t)
    (all_live : (f : Text) → live_at now (lock_of f t) ≡ lock_of f t) where
  lock_case-Agrees :
      (lock_id : Text)
      → (lock_id ≢ [] → is_blank lock_id ≡ false)
      → Does now file_id t
          (lock_case now id file_id account lock_id t (lock_of file_id t))
          (lock_register now lock_id (held_at now t file_id))
  unfolding lock_case
  lock_case-Agrees lock_id filled =
      let (after, failed) = acquire_lock-Refines now e (wopi_request id file_id lock_id account) in
      elim (Option-cases (lock_of file_id t)) [
        | inl free ↦ record {
          holder =
              ground (arith, free, all_live file_id, thirty_minutes, filled, after file_id, failed);
          answer =
              ground (arith, free, all_live file_id, thirty_minutes, filled, after file_id, failed);
          others = λ f other.
              ground (arith, free, all_live file_id, thirty_minutes, filled, after f, failed);
        }
        | inr (l, held) ↦ record {
          holder =
              ground (arith, held, all_live file_id, thirty_minutes, filled, after file_id, failed);
          answer =
              ground (arith, held, all_live file_id, thirty_minutes, filled, after file_id, failed);
          others = λ f other.
              ground (arith, held, all_live file_id, thirty_minutes, filled, after f, failed);
        }
      ]

  refresh_case-Agrees :
      (lock_id : Text)
      → Does now file_id t
          (refresh_case now id file_id account lock_id t (lock_of file_id t))
          (refresh_register now lock_id (held_at now t file_id))
  unfolding refresh_case
  refresh_case-Agrees lock_id =
      let (after, failed) = refresh_lock-Refines now e file_id lock_id (pos 1800) in
      elim (Option-cases (lock_of file_id t)) [
        | inl free ↦ record {
          holder = ground (arith, free, all_live file_id, thirty_minutes, after file_id, failed);
          answer = ground (arith, free, all_live file_id, thirty_minutes, after file_id, failed);
          others =
              λ f other. ground (arith, free, all_live file_id, thirty_minutes, after f, failed);
        }
        | inr (l, held) ↦ record {
          holder = ground (arith, held, all_live file_id, thirty_minutes, after file_id, failed);
          answer = ground (arith, held, all_live file_id, thirty_minutes, after file_id, failed);
          others =
              λ f other. ground (arith, held, all_live file_id, thirty_minutes, after f, failed);
        }
      ]

  unlock_case-Agrees :
      (lock_id : Text)
      → Does now file_id t
          (unlock_case now id file_id account lock_id t (lock_of file_id t))
          (unlock_register now lock_id (held_at now t file_id))
  unfolding unlock_case
  unlock_case-Agrees lock_id =
      let (after, failed) = release_lock-Refines now e file_id lock_id in
      elim (Option-cases (lock_of file_id t)) [
        | inl free ↦ record {
          holder = ground (arith, free, all_live file_id, thirty_minutes, after file_id, failed);
          answer = ground (arith, free, all_live file_id, thirty_minutes, after file_id, failed);
          others =
              λ f other. ground (arith, free, all_live file_id, thirty_minutes, after f, failed);
        }
        | inr (l, held) ↦ record {
          holder = ground (arith, held, all_live file_id, thirty_minutes, after file_id, failed);
          answer = ground (arith, held, all_live file_id, thirty_minutes, after file_id, failed);
          others =
              λ f other. ground (arith, held, all_live file_id, thirty_minutes, after f, failed);
        }
      ]

  relock_case-Agrees :
      (lock_id old_lock_id : Text)
      → (lock_id ≢ [] → is_blank lock_id ≡ false)
      → Does now file_id t
          (relock_case now id file_id account lock_id old_lock_id t (lock_of file_id t))
          (relock_register now lock_id old_lock_id (held_at now t file_id))
  unfolding relock_case
  relock_case-Agrees lock_id old_lock_id filled =
      let expected = if old_lock_id == [] then lock_id else old_lock_id in
      let (gone, freed) = release_lock-Refines now e file_id expected in
      let e' = release_lock-IsExclusive now file_id expected e in
      let (after, failed) = acquire_lock-Refines now e' (wopi_request id file_id lock_id account) in
      elim (Option-cases (lock_of file_id t)) [
        | inl free ↦ record {
          holder = ground (
            arith,
            free,
            all_live file_id,
            thirty_minutes,
            filled,
            gone file_id,
            freed,
            after file_id,
            failed,
          );
          answer = ground (
            arith,
            free,
            all_live file_id,
            thirty_minutes,
            filled,
            gone file_id,
            freed,
            after file_id,
            failed,
          );
          others = λ f other. ground (
            arith,
            free,
            all_live file_id,
            thirty_minutes,
            filled,
            gone f,
            freed,
            after f,
            failed,
          );
        }
        | inr (l, held) ↦ record {
          holder = ground (
            arith,
            held,
            all_live file_id,
            thirty_minutes,
            filled,
            gone file_id,
            freed,
            after file_id,
            failed,
          );
          answer = ground (
            arith,
            held,
            all_live file_id,
            thirty_minutes,
            filled,
            gone file_id,
            freed,
            after file_id,
            failed,
          );
          others = λ f other. ground (
            arith,
            held,
            all_live file_id,
            thirty_minutes,
            filled,
            gone f,
            gone file_id,
            freed,
            after f,
            failed,
          );
        }
      ]

  get_lock-Agrees :
      (p : Register)
      → p ≡ stays (held_at now t file_id) none
      → Does now file_id t (t, reply (token_or_empty (lock_of file_id t)) none) p
  unfolding reply token_or_empty
  get_lock-Agrees p e = elim (Option-cases (lock_of file_id t)) [
    | inl free ↦ record {
      holder = ground (arith, free, all_live file_id);
      answer = ground (arith, free, all_live file_id);
      others = λ f other. refl;
    }
    | inr (l, held) ↦ record {
      holder = ground (arith, held, all_live file_id);
      answer = ground (arith, held, all_live file_id);
      others = λ f other. refl;
    }
  ]

  dispatch-Agrees :
      (op lock_id old_lock_id : Text)
      → (lock_id ≢ [] → is_blank lock_id ≡ false)
      → Does now file_id t
          (dispatch now id file_id account op lock_id old_lock_id t (lock_of file_id t))
          (wopi_register now op lock_id old_lock_id (held_at now t file_id))
  unfolding dispatch wopi_register refuse
  dispatch-Agrees op lock_id old_lock_id filled =
      if_both₂ (Does now file_id t) (op == codes "GET_LOCK") (get_lock-Agrees _ refl) (
        if_both₂ (Does now file_id t) (op == codes "LOCK") (lock_case-Agrees lock_id filled) (
          if_both₂ (Does now file_id t) (op == codes "REFRESH_LOCK") (refresh_case-Agrees lock_id) (
            if_both₂ (Does now file_id t) (op == codes "UNLOCK") (unlock_case-Agrees lock_id) (
              if_both₂ (Does now file_id t) (op == codes "UNLOCK_AND_RELOCK")
                (relock_case-Agrees lock_id old_lock_id filled)
                (record { holder = refl; answer = refl; others = λ f other. refl })))))

empty-Agrees :
    (now : ℕ) (file_id op lock_id old_lock_id : Text) (t : LockTable) (h : Option (Text × ℕ))
    → (op == []) ≡ true
    → h ≡ held_at now t file_id
    → Agrees now file_id t t
        (refuse invalid_lock_operation)
        (wopi_register now op lock_id old_lock_id h)
unfolding wopi_register refuse text_discrete
empty-Agrees now file_id [] lock_id old_lock_id t h e same = record {
  holder = sym same;
  answer = refl;
  others = λ f other. refl;
}
empty-Agrees now file_id (c ∷ op) lock_id old_lock_id t h e same = cc

-- The empty operation is refused before the table is read.
moved :
    {now : ℕ} {file_id : Text} {u : LockTable} (t : LockTable) (b : Bool)
    {x y : LockTable × WopiReply} {p : Register}
    → ((f : Text) → held_at now u f ≡ held_at now t f)
    → (b ≡ true → Does now file_id t x p)
    → Does now file_id u y p
    → Does now file_id t (if b then x else y) p
moved t true same h k = h refl
moved t false same h k = record {
  holder = k.holder;
  answer = k.answer;
  others = λ f other. k.others f other ∙ same f;
}

-- A request of an editor, on a table with one row for a file, does to the file's lock and answers
-- what the register of the WOPI protocol does on the upper-cased operation and the trimmed lock
-- ids, for every operation and on every branch: the token that holds the file afterwards and the
-- instant at which it lapses, thirty minutes after a lock, a refresh or a relock, are the
-- register's. The locks of the other files stay.
pub handle_lock-Agrees :
    (now id : ℕ) (uuid_of : Text → Option Text) (file_id : Text) (claims : Option WopiClaims)
    (operation lock_id old_lock_id : Text) {t : LockTable}
    → IsExclusive t
    → can_edit claims ≡ true
    → Agrees now file_id t
        (handle_lock now id uuid_of file_id claims operation lock_id old_lock_id t).0
        (handle_lock now id uuid_of file_id claims operation lock_id old_lock_id t).1
        (wopi_register now
          (to_upper (trim_space operation))
          (trim_space lock_id)
          (trim_space old_lock_id)
          (held_at now t file_id))
unfolding handle_lock get_lock
handle_lock-Agrees now id uuid_of file_id claims operation lock_id old_lock_id {t} e editor =
    let rows = clean_expired_locks now t in
    let live = clean_expired_locks-IsExclusive now e in
    let fresh_of = λ (f : Text). lock_of-clean_expired_locks now f t (e.one_per_file f) in
    let all_live : (f : Text) → live_at now (lock_of f rows) ≡ lock_of f rows =
      λ f. ground (arith, fresh_of f) in
    let same : (f : Text) → held_at now rows f ≡ held_at now t f =
      λ f. ground (arith, fresh_of f) in
    let run =
      dispatch-Agrees now id file_id (account_of uuid_of claims) live all_live
        (to_upper (trim_space operation)) (trim_space lock_id) (trim_space old_lock_id)
        (is_blank-trim_space lock_id) in
    rw (editor, ← same file_id)
      (moved t (to_upper (trim_space operation) == []) same
        (λ none_given. empty-Agrees now file_id _ _ _ t _ none_given (same file_id)) run)
