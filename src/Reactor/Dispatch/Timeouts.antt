-- ===== src/Reactor/Dispatch/Timeouts.antt =====
-- The loop over the timeouts of src/reactor/epoll_reactor_impl.cpp comes to its end.
use unp.Base.{
  ℕ, zero, suc, ◌≤◌, ◌<◌, ◌≡◌, refl, sym, ap, ◌∙◌, true, false, Option, none, some, List, [], ◌∷◌,
  inl, inr, Bool-cases, Option-cases, arith, length, ◌==◌, ltb, ltb→lt, ltb→le, if◌then◌else◌,
  none-ne-some, ==-eq, false≢true,
}
use unp.Base.Int.{ℤ, pos}
use unp.Reactor.Assoc.{lookup, mem, discard, mem-discard, lookup-erase}
use unp.Reactor.Table.{
  Repo, least, latest_timeout_point, latest_timeout_handlers, unbind_timeout_handlers,
}
use unp.Reactor.Table.Timeouts.{no_least, least_key, least_before}
use unp.Reactor.Epoll.{EpollReactor, is_zero}
use unp.Reactor.Dispatch.{
  Handlers, repo_of, or_int, fire, unbind_point, timeout_loop, dispatch_timeout_events,
}

length_le-discard : (xs : List ℕ) (k : ℕ) → length (discard xs k) ≤ length xs
length_le-discard [] k = omega arith
length_le-discard (x ∷ xs) k = elim (Bool-cases (k == x)) [
  | inl same ↦ rw same (omega (arith, length_le-discard xs k))
  | inr other ↦ rw other (omega (arith, length_le-discard xs k))
]

length-discard : (xs : List ℕ) (k : ℕ) → mem xs k ≡ true → length (discard xs k) < length xs
length-discard [] k e = absurd (false≢true e)
length-discard (x ∷ xs) k e = elim (Bool-cases (k == x)) [
  | inl same ↦ rw same (omega (arith, length_le-discard xs k))
  | inr other ↦ rw other (omega (arith, length-discard xs k (rw other at e)))
]

-- The time points of the map.
abbrev points : List (ℕ × List ℕ) → List ℕ
points [] = []
points ((t, hs) ∷ m) = t ∷ points m

length-points : (m : List (ℕ × List ℕ)) → length (points m) ≡ length m
length-points [] = refl
length-points ((t, hs) ∷ m) = ap suc (length-points m)

mem-points : (m : List (ℕ × List ℕ)) (t : ℕ) → mem (points m) t ≡ false → lookup m t ≡ none
mem-points [] t e = refl
mem-points ((s, hs) ∷ m) t e = elim (Bool-cases (t == s)) [
  | inl same ↦ absurd (false≢true (sym (rw same at e)))
  | inr other ↦ rw other (mem-points m t (rw other at e))
]

or_int-one : (x : ℤ) → or_int x (pos 1) ≡ pos 1
or_int-one x = elim (Bool-cases (is_zero x)) [ inl z ↦ rw z refl | inr nz ↦ rw nz refl ]

-- A time point is gone once it is unbound.
unbind_point-lookup :
    (r : Repo) (t j : ℕ)
    → lookup (unbind_timeout_handlers r t).0.timeout_handlers j
      ≡ (if j == t then none else lookup r.timeout_handlers j)
unfolding unbind_timeout_handlers
unbind_point-lookup r t j = elim (Option-cases (lookup r.timeout_handlers t)) [
  | inr (hs, e) ↦ rw (e, unbind_timeout_handlers) (lookup-erase r.timeout_handlers t j)
  | inl e ↦
      rw (e, unbind_timeout_handlers)
        (elim (Bool-cases (j == t)) [
          | inl same ↦ rw same (ap (lookup r.timeout_handlers) (==-eq j t same) ∙ e)
          | inr other ↦ rw other refl
        ])
]

module _ {K W : Type 0} (f : Handlers (EpollReactor K × W)) where
  abbrev points_of : EpollReactor K × W → List (ℕ × List ℕ)
  points_of s = (repo_of f s).timeout_handlers

  -- A handler's handle_timeout binds nothing to a time point before `now`.
  abbrev pub Quiet : ℕ → Type 0
  Quiet now =
      (h : ℕ) (s : EpollReactor K × W) (t : ℕ)
      → t < now
      → lookup (repo_of f s).timeout_handlers t ≡ none
      → lookup (repo_of f (f.handle_timeout h s).0).timeout_handlers t ≡ none

  fire-Quiet :
      (now : ℕ) (hs : List ℕ) (s : EpollReactor K × W) (ret : ℤ) (t : ℕ)
      → Quiet now
      → t < now
      → lookup (points_of s) t ≡ none
      → lookup (points_of (fire f hs s ret).0) t ≡ none
  unfolding fire
  fire-Quiet now [] s ret t q lt e = e
  fire-Quiet now (h ∷ hs) s ret t q lt e =
      fire-Quiet now hs (f.handle_timeout h s).0 (or_int (f.handle_timeout h s).1 ret) t q lt
        (q h s t lt e)

  fire_one : (hs : List ℕ) (s : EpollReactor K × W) → (fire f hs s (pos 1)).1 ≡ pos 1
  unfolding fire
  fire_one [] s = refl
  fire_one (h ∷ hs) s =
      rw (or_int-one (f.handle_timeout h s).1, fire) (fire_one hs (f.handle_timeout h s).0)

  -- The loop has returned 1, and nothing before `now` is left.
  abbrev pub Done : ℕ → Option ((EpollReactor K × W) × ℤ) → Type 0
  Done now answer =
      (s : EpollReactor K × W) × (answer ≡ some (s, pos 1))
      × ((t : ℕ) → t < now → lookup (repo_of f s).timeout_handlers t ≡ none)

  -- `due` holds the time points before `now`.
  Covers : List ℕ → ℕ → EpollReactor K × W → Type 0
  Covers due now s = (t : ℕ) → t < now → mem due t ≡ false → lookup (points_of s) t ≡ none

  covered :
      (due : List ℕ) (now : ℕ) (s : EpollReactor K × W) (t : ℕ)
      → Quiet now
      → Covers due now s
      → (let s' = (fire f (latest_timeout_handlers (repo_of f s)) s (pos 1)).0 in
          Covers (discard due t) now (unbind_point f s' t))
  unfolding Covers
  covered due now s t q c j lt absent =
      unbind_point-lookup (repo_of f s') t j ∙ elim (Bool-cases (j == t)) [
        | inl same ↦ rw same refl
        | inr other ↦ rw other (fire-Quiet now hs s (pos 1) j q lt (c j lt (still other)))
      ]
    where
      hs : List ℕ
      hs = latest_timeout_handlers (repo_of f s)

      s' : EpollReactor K × W
      s' = (fire f hs s (pos 1)).0

      still : (j == t) ≡ false → mem due j ≡ false
      still other = sym (mem-discard due t j ∙ rw other refl) ∙ absent

  in_due :
      (due : List ℕ) (now : ℕ) (s : EpollReactor K × W) (t : ℕ)
      → Covers due now s
      → latest_timeout_point (repo_of f s) ≡ some t
      → t < now
      → mem due t ≡ true
  unfolding Covers latest_timeout_point
  in_due due now s t c e lt = elim (Bool-cases (mem due t)) [
    | inl there ↦ there
    | inr absent ↦
        let (hs, at) = least_key (points_of s) t e in
        absurd (none-ne-some hs (sym (c t lt absent) ∙ at))
  ]

  timeout_loop-Done :
      (fuel now : ℕ) (due : List ℕ) (s : EpollReactor K × W)
      → Quiet now
      → length due < fuel
      → Covers due now s
      → Done now (timeout_loop f fuel now s (pos 1))
  unfolding timeout_loop latest_timeout_point
  timeout_loop-Done zero now due s q lt c = absurd (omega arith)
  timeout_loop-Done (suc fuel) now due s q lt c = elim (Option-cases (least (points_of s))) [
    | inl nothing ↦
        rw (nothing, timeout_loop) (s, refl, λ t before. no_least (points_of s) t nothing)
    | inr (t, e) ↦ elim (Bool-cases (ltb t now)) [
      | inr late ↦
          rw (e, timeout_loop)
            (rw (late, timeout_loop)
              (s, refl, λ j before. not_due t j e (omega (arith, ltb→le t now late))))
      | inl early ↦
          let hs = latest_timeout_handlers (repo_of f s) in
          let s' = (fire f hs s (pos 1)).0 in
          let member = in_due due now s t c e (ltb→lt t now early) in
          let rest =
            timeout_loop-Done fuel now (discard due t) (unbind_point f s' t) q
              (omega (arith, length-discard due t member)) (covered due now s t q c) in
          rw (e, timeout_loop) (rw (early, timeout_loop) (rw (fire_one hs s, timeout_loop) rest))
    ]
  ]
    where
      not_due : (t j : ℕ) → least (points_of s) ≡ some t → j < t → lookup (points_of s) j ≡ none
      not_due t j e before = elim (Option-cases (lookup (points_of s) j)) [
        | inl absent ↦ absent
        | inr (ks, found) ↦ absurd (omega (arith, least_before (points_of s) t j ks e found))
      ]

  -- If no handle_timeout binds a handler to a time point before now, the loop of
  -- dispatch_timeout_events ends, after fewer rounds than one more than the time points bound at the
  -- start: it returns 1, and nothing is bound to a time point before now.
  pub dispatch_timeout_events-Done :
      (fuel now : ℕ) (s : EpollReactor K × W)
      → Quiet now
      → length (repo_of f s).timeout_handlers < fuel
      → Done now (dispatch_timeout_events f fuel now s)
  unfolding dispatch_timeout_events Covers
  dispatch_timeout_events-Done fuel now s q lt =
      timeout_loop-Done fuel now (points (points_of s)) s q
        (omega (arith, length-points (points_of s))) (λ t before. mem-points (points_of s) t)
