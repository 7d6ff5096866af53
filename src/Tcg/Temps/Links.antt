-- ===== src/Tcg/Temps/Links.antt =====
-- A temporary of which nothing was known becomes a copy of another one.
use fist_ame.Base.{◌==◌, Bool-cases, ℕ, ◌<◌, ◌≡◌, ◌≢◌, inl, inr, true, false, arith}
use fist_ame.Tcg.Temps.{is_const, is_copy, Temps, Context, link, temp_undef}
use fist_ame.Tcg.Temps.Sound.{Linked, IsSound}

module _ (s : Context) (temps : Temps) (vals : ℕ → ℕ) (d src : ℕ) (h : IsSound s temps vals)
    (dl : d < s.nb_temps) (sl : src < s.nb_temps) (ne : d ≢ src) (u : temps.state d ≡ temp_undef)
    (k : is_const (temps.state src) ≡ false) (e : vals d ≡ vals src)
    (t : s.type d ≡ s.type src) where
  -- The source is in a ring already.
  ring-Linked :
      is_copy (temps.state src) ≡ true
      → (x : ℕ) → x < s.nb_temps
      → is_copy ((link temps d src).state x) ≡ true
      → Linked s (link temps d src) vals x
  unfolding link
  ring-Linked q x xl was =
      let c = rw (link, q) at was in
      rw (link, q)
        (let o = h.linked src sl q in
          elim (Bool-cases (x == d)) [
            | inl xd ↦ record {
              next_lt = ground (arith, o.next_lt);
              prev_lt = ground (arith, sl);
              next_is = ground (arith, o.next_is);
              prev_is = ground (arith, q);
              prev_next = ground (arith, o.next_is);
              next_prev = ground arith;
              next_type = ground (arith, o.next_type);
              next_val = ground (arith, o.next_val);
            }
            | inr xd ↦
                let cx : is_copy (temps.state x) ≡ true = ground (arith, c, xd) in
                let l = h.linked x xl cx in
                elim (Bool-cases (x == src)) [
                  | inl xs ↦ record {
                    next_lt = ground (arith, dl);
                    prev_lt = ground (arith, l.prev_lt, dl);
                    next_is = ground arith;
                    prev_is = ground (arith, l.prev_is);
                    prev_next = ground (arith, o.next_is);
                    next_prev = ground (arith, l.prev_is, l.next_prev);
                    next_type = ground arith;
                    next_val = ground arith;
                  }
                  | inr xs ↦ record {
                    next_lt = ground (arith, l.next_lt);
                    prev_lt = ground (arith, l.prev_lt, dl);
                    next_is = ground (arith, l.next_is);
                    prev_is = ground (arith, l.prev_is);
                    prev_next = ground (arith, l.next_is, l.prev_next, o.prev_next);
                    next_prev = ground (arith, l.prev_is, l.next_prev);
                    next_type = ground (arith, l.next_type);
                    next_val = ground (arith, l.next_val);
                  }
                ]
          ])

  -- The source becomes a ring of its own first.
  alone-Linked :
      is_copy (temps.state src) ≡ false
      → (x : ℕ) → x < s.nb_temps
      → is_copy ((link temps d src).state x) ≡ true
      → Linked s (link temps d src) vals x
  unfolding link
  alone-Linked q x xl was =
      let c = rw (link, q) at was in
      rw (link, q)
        (elim (Bool-cases (x == d)) [
          | inl xd ↦ record {
            next_lt = ground (arith, sl);
            prev_lt = ground (arith, sl);
            next_is = ground arith;
            prev_is = ground arith;
            prev_next = ground arith;
            next_prev = ground arith;
            next_type = ground arith;
            next_val = ground arith;
          }
          | inr xd ↦ elim (Bool-cases (x == src)) [
            | inl xs ↦ record {
              next_lt = ground (arith, dl);
              prev_lt = ground (arith, dl);
              next_is = ground arith;
              prev_is = ground arith;
              prev_next = ground arith;
              next_prev = ground arith;
              next_type = ground arith;
              next_val = ground arith;
            }
            | inr xs ↦
                let cx : is_copy (temps.state x) ≡ true = ground (arith, c, xd, xs) in
                let l = h.linked x xl cx in
                record {
                  next_lt = ground (arith, l.next_lt);
                  prev_lt = ground (arith, l.prev_lt);
                  next_is = ground (arith, l.next_is);
                  prev_is = ground (arith, l.prev_is);
                  prev_next = ground (arith, l.next_is, l.prev_next);
                  next_prev = ground (arith, l.prev_is, l.next_prev);
                  next_type = ground (arith, l.next_type);
                  next_val = ground (arith, l.next_val);
                }
          ]
        ])

  pub link-IsSound : IsSound s (link temps d src) vals
  unfolding link
  link-IsSound = record {
    range = h.range;
    known = λ x xl c. elim (Bool-cases (is_copy (temps.state src))) [
      | inl q ↦ h.known x xl (ground (arith, rw (link, q) at c))
      | inr q ↦ h.known x xl (ground (arith, rw (link, q) at c))
    ];
    exact = λ x xl c. elim (Bool-cases (is_copy (temps.state src))) [
      | inl q ↦ h.exact x xl (ground (arith, rw (link, q) at c))
      | inr q ↦ h.exact x xl (ground (arith, rw (link, q) at c))
    ];
    masked = h.masked;
    mask_lt = h.mask_lt;
    linked = λ x xl c. elim (Bool-cases (is_copy (temps.state src))) [
      | inl q ↦ ring-Linked q x xl c
      | inr q ↦ alone-Linked q x xl c
    ];
  }
