-- ===== src/Reactor/Marks.antt =====
-- The events that `poll` notes on the channels.
use mu_muduo.Common.{
  ℕ, ◌≡◌, refl, sym, ap, ◌∙◌, inl, inr, List, [], ◌∷◌, ◌++◌, Option, none, some, lookup, nat_eq,
  lookup-insert, ◌==◌, ==_iff, Bool-cases, Outcome, ok, err, dangling, >>=-eq-ok,
}
use mu_muduo.Channel.{Channel, set_revents, shape}
use mu_muduo.Reactor.{Reactor, EpollEvent, load, put, fill_active_channels, enlarge, poll, ready}

-- Two channels that differ in the noted events only, as far as a connection sees.
abbrev pub Alike : Channel → Channel → Type 0
Alike d d' = (d'.events ≡ d.events) × (shape d' ≡ shape d)

some_same : {c d : Channel} → some c ≡ some d → c ≡ d
some_same h = cc

module _ {Kernel : Type 0} where
  -- The same channels, each alike.
  pub record Marks (s s' : Reactor Kernel) : Type 0 where
    pub forth :
        (a : ℕ) (d : Channel)
        → lookup a s.heap ≡ some d
        → (d' : Channel) × (lookup a s'.heap ≡ some d') × Alike d d'
    pub back :
        (a : ℕ) (d' : Channel)
        → lookup a s'.heap ≡ some d'
        → (d : Channel) × (lookup a s.heap ≡ some d) × Alike d d'

  Marks-refl : (s s' : Reactor Kernel) → s'.heap ≡ s.heap → Marks s s'
  Marks-refl s s' e = record {
    forth = λ a d l. (d, ap (lookup a) e ∙ l, (refl, refl));
    back = λ a d l. (d, sym (ap (lookup a) e) ∙ l, (refl, refl));
  }

  Marks-trans : {s t u : Reactor Kernel} → Marks s t → Marks t u → Marks s u
  Marks-trans m n = record {
    forth = λ a d l.
        let (d', l', (e, f)) = m.forth a d l in
        let (d'', l'', (e', f')) = n.forth a d' l' in (d'', l'', (e' ∙ e, f' ∙ f));
    back = λ a d l.
        let (d', l', (e, f)) = n.back a d l in
        let (d'', l'', (e', f')) = m.back a d' l' in (d'', l'', (e ∙ e', f ∙ f'));
  }

  put-Marks :
      (r a : ℕ) (s : Reactor Kernel) {c : Channel}
      → lookup a s.heap ≡ some c
      → Marks s (put a (set_revents r c) s)
  unfolding set_revents shape
  put-Marks r a s {c} l = record {
    forth = λ b d f. elim (Bool-cases (a == b)) [
      | inl e ↦
          let same : c ≡ d = some_same (sym l ∙ ap (λ n. lookup n s.heap) ((==_iff a b).0 e) ∙ f) in
          (
            set_revents r c,
            lookup-insert a b (set_revents r c) s.heap ∙ rw e refl,
            (ap (λ x. x.events) same, ap shape same),
          )
      | inr e ↦ (d, lookup-insert a b (set_revents r c) s.heap ∙ rw e f, (refl, refl))
    ];
    back = λ b d f. elim (Bool-cases (a == b)) [
      | inl e ↦
          let now : d ≡ set_revents r c =
            some_same (sym f ∙ lookup-insert a b (set_revents r c) s.heap ∙ rw e refl) in
          (
            c,
            ap (λ n. lookup n s.heap) (sym ((==_iff a b).0 e)) ∙ l,
            (ap (λ x. x.events) now, ap shape now),
          )
      | inr e ↦ (d, sym (lookup-insert a b (set_revents r c) s.heap ∙ rw e refl) ∙ f, (refl, refl))
    ];
  }

  load-found :
      (a : ℕ) (s : Reactor Kernel) {c : Channel} → load a s ≡ ok c → lookup a s.heap ≡ some c
  unfolding load
  load-found a s {c} e = by_lookup (lookup a s.heap) e
    where
      by_lookup :
          (m : Option Channel) → elim m [ none ↦ err dangling | some c ↦ ok c ] ≡ ok c → m ≡ some c
      by_lookup none e = cc
      by_lookup (some d) e = cc

  same_state :
      {xs ys : List ℕ} {s t : Reactor Kernel}
      → ◌≡◌ {A = Outcome (List ℕ × Reactor Kernel)} (ok (xs, s)) (ok (ys, t))
      → t ≡ s
  same_state e = cc

  fill_active_channels-Marks :
      (es : List EpollEvent) (active xs : List ℕ) (s s' : Reactor Kernel)
      → fill_active_channels es active s ≡ ok (xs, s')
      → Marks s s'
  unfolding fill_active_channels
  fill_active_channels-Marks [] active xs s s' e = Marks-refl s s' (ap (λ x. x.heap) (same_state e))
  fill_active_channels-Marks (e ∷ es) active xs s s' done =
      let (c, found, rest) = >>=-eq-ok _ (load e.ptr s) done in
      Marks-trans (put-Marks e.events e.ptr s (load-found e.ptr s found)) (
        fill_active_channels-Marks es (active ++ e.ptr ∷ []) xs
          (put e.ptr (set_revents e.events c) s) s' rest)

  enlarge-heap : (n : ℕ) (s : Reactor Kernel) → (enlarge n s).heap ≡ s.heap
  unfolding enlarge
  enlarge-heap n s = elim (Bool-cases (n == s.event_list_size)) [
    | inl e ↦ rw e refl
    | inr e ↦ rw e refl
  ]

  pub poll-Marks :
      (es : List EpollEvent) (xs : List ℕ) (s s' : Reactor Kernel)
      → poll (ready es) [] s ≡ ok (xs, s')
      → Marks s s'
  unfolding poll
  poll-Marks [] xs s s' e = Marks-refl s s' (ap (λ x. x.heap) (same_state e))
  poll-Marks (e ∷ es) xs s s' done =
      let ((ys, t), filled, rest) = >>=-eq-ok _ (fill_active_channels (e ∷ es) [] s) done in
      Marks-trans (fill_active_channels-Marks (e ∷ es) [] ys s t filled)
        (Marks-refl t s' (ap (λ x. x.heap) (same_state rest) ∙ enlarge-heap _ t))
