-- ===== src/Sync/Oneshot/Arrival.antt =====
-- The one-value channel: the value arrives however the accesses of the two sides interleave.
use dtact.Base.{
  ◌≡◌, refl, sym, ap, subst, ◌∙◌, ◌⊎◌, inl, inr, true, false, Bool-cases, none, some, List, [], ◌∷◌,
  ◌++◌,
}
use dtact.Sync.Oneshot.{
  Inner, value_of, Access, writes, publishes, wakes, closes, channel, access, run, drop_sender,
  deliver, ok_or, look_again, look_dropped, look_sent, try_take,
}

module _ {ℓ} {T : Type ℓ} where
  -- How far the sender of `t` is: what is left of its program, and what the channel then holds.
  data Sending (t : T) : List (Access T) → Inner T → Type ℓ where
    at_start : (c : Inner T) → c.sent ≡ false → c.sender_dropped ≡ false → Sending t (deliver t) c
    at_publish :
        (c : Inner T)
        → c.value ≡ some t
        → c.sent ≡ false
        → c.sender_dropped ≡ false
        → Sending t (publishes ∷ wakes ∷ drop_sender) c
    at_wake : (c : Inner T) → c.value ≡ some t → c.sent ≡ true → Sending t (wakes ∷ drop_sender) c
    at_close : (c : Inner T) → c.value ≡ some t → c.sent ≡ true → Sending t drop_sender c
    at_last : (c : Inner T) → c.value ≡ some t → c.sent ≡ true → Sending t (wakes ∷ []) c
    at_end : (c : Inner T) → c.value ≡ some t → c.sent ≡ true → Sending t [] c

  access-Sending :
      (t : T) (a : Access T) (l : List (Access T)) (c : Inner T)
      → Sending t (a ∷ l) c
      → Sending t l (access c a)
  unfolding access
  access-Sending t _ _ _ (at_start c s d) = at_publish _ refl s d
  access-Sending t _ _ _ (at_publish c v s d) = at_wake _ v refl
  access-Sending t _ _ _ (at_wake c v s) = at_close _ v s
  access-Sending t _ _ _ (at_close c v s) = at_last _ v s
  access-Sending t _ _ _ (at_last c v s) = at_end _ v s

  run-Sending :
      (t : T) (l rest : List (Access T)) (c : Inner T)
      → Sending t (l ++ rest) c
      → Sending t rest (run l c)
  unfolding run
  run-Sending t [] rest c h = h
  run-Sending t (a ∷ l) rest c h = run-Sending t l rest _ (access-Sending t a _ c h)

  value_of_sent :
      (t : T) (l : List (Access T)) (c : Inner T) → Sending t l c → c.sent ≡ true → c.value ≡ some t
  value_of_sent t _ _ (at_start c s d) e = cc
  value_of_sent t _ _ (at_publish c v s d) e = v
  value_of_sent t _ _ (at_wake c v s) e = v
  value_of_sent t _ _ (at_close c v s) e = v
  value_of_sent t _ _ (at_last c v s) e = v
  value_of_sent t _ _ (at_end c v s) e = v

  sent_of_dropped :
      (t : T) (l : List (Access T)) (c : Inner T)
      → Sending t l c
      → c.sender_dropped ≡ true
      → c.sent ≡ true
  sent_of_dropped t _ _ (at_start c s d) e = cc
  sent_of_dropped t _ _ (at_publish c v s d) e = cc
  sent_of_dropped t _ _ (at_wake c v s) e = s
  sent_of_dropped t _ _ (at_close c v s) e = s
  sent_of_dropped t _ _ (at_last c v s) e = s
  sent_of_dropped t _ _ (at_end c v s) e = s

  sent-access : (c : Inner T) (a : Access T) → c.sent ≡ true → (access c a).sent ≡ true
  unfolding access
  sent-access c (writes t) e = e
  sent-access c publishes e = refl
  sent-access c wakes e = e
  sent-access c closes e = e

  sent-run : (l : List (Access T)) (c : Inner T) → c.sent ≡ true → (run l c).sent ≡ true
  unfolding run
  sent-run [] c e = e
  sent-run (a ∷ l) c e = sent-run l _ (sent-access c a e)

  -- Cut the accesses of a `send` (the sender's `Drop` included) anywhere into four parts: those
  -- before the receiver's `try_take`, those after its first load, those after its second, and the
  -- rest. The receiver gets the value, or, if the first part did not publish it, it may find nothing yet;
  -- it is never told that the sender was dropped without sending.
  pub try_take-arrives :
      (t : T) (before soon later rest : List (Access T))
      → before ++ (soon ++ (later ++ rest)) ≡ deliver t
      → let c = run before channel in
        let r = (try_take (run soon) (run later) c).1 in
        (r ≡ some (value_of t)) ⊎ ((r ≡ none) × (c.sent ≡ false))
  unfolding try_take channel
  try_take-arrives t before soon later rest e = by_sent (Bool-cases c.sent)
    where
      c : Inner T
      c = run before channel

      now : Sending t (soon ++ (later ++ rest)) c
      now =
          run-Sending t before (soon ++ (later ++ rest)) channel
            (subst (λ l. Sending t l channel) (sym e) (at_start channel refl refl))

      c2 : Inner T
      c2 = run soon c

      next : Sending t (later ++ rest) c2
      next = run-Sending t soon (later ++ rest) c now

      by_dropped :
          (c.sent ≡ false)
          → ((c2.sender_dropped ≡ true) ⊎ (c2.sender_dropped ≡ false))
          → let r = (look_dropped c2.sender_dropped (run later) c2).1 in
            (r ≡ some (value_of t)) ⊎ ((r ≡ none) × (c.sent ≡ false))
      by_dropped s (inl d) =
          let k = sent-run later c2 (sent_of_dropped t _ c2 next d) in
          let v = value_of_sent t rest (run later c2) (run-Sending t later rest c2 next) k in
          inl (
            ap (λ b. (look_dropped b (run later) c2).1) d
            ∙ ap (λ b. (look_again b (run later c2)).1) k
            ∙ ap (λ o. some (ok_or o)) v)
      by_dropped s (inr d) = inr (ap (λ b. (look_dropped b (run later) c2).1) d, s)

      by_sent :
          ((c.sent ≡ true) ⊎ (c.sent ≡ false))
          → let r = (look_sent c.sent (run soon) (run later) c).1 in
            (r ≡ some (value_of t)) ⊎ ((r ≡ none) × (c.sent ≡ false))
      by_sent (inl s) = inl (
          ap (λ b. (look_sent b (run soon) (run later) c).1) s
          ∙ ap (λ o. some (ok_or o)) (value_of_sent t _ c now s))
      by_sent (inr s) =
          subst
            (λ b.
              ((look_sent b (run soon) (run later) c).1 ≡ some (value_of t))
              ⊎ (((look_sent b (run soon) (run later) c).1 ≡ none) × (c.sent ≡ false)))
            (sym s) (by_dropped s (Bool-cases c2.sender_dropped))
