-- ===== src/Reactor/Table/Timeouts.antt =====
-- The time points and the accept event of src/reactor/poll_demultiplex_table.cpp.
use unp.Base.{
  ℕ, ◌≤◌, ◌<◌, ◌≡◌, refl, sym, ◌∙◌, true, false, Option, none, some, List, [], ◌∷◌, inl, inr,
  Bool-cases, Option-cases, arith, leb, leb→lt, ◌==◌, if◌then◌else◌, ◌≢◌, none-ne-some,
  some-injective, ==-eq,
}
use unp.Base.Int.{pos, negsuc}
use unp.Reactor.Assoc.{lookup}
use unp.Reactor.Table.{
  Repo, read_event, least, latest_timeout_point, latest_timeout_handlers, handlers_at, bind_new,
  accept_event, get_handler, unbind,
}
use unp.Reactor.Table.Lookup.{get_handler-bind_new, unbind_refused}

-- Only the empty map has no first key.
pub no_least : (m : List (ℕ × List ℕ)) (s : ℕ) → least m ≡ none → lookup m s ≡ none
unfolding least
no_least [] s e = refl
no_least ((k, hs) ∷ m) s e = elim (Option-cases (least m)) [
  | inl nothing ↦ absurd (none-ne-some k (sym e ∙ rw (nothing, least) refl))
  | inr (u, first) ↦
      absurd (none-ne-some (if leb k u then k else u) (sym e ∙ rw (first, least) refl))
]

-- The first key of a map with one more entry.
least_cons :
    (k u t : ℕ) (hs : List ℕ) (m : List (ℕ × List ℕ))
    → least m ≡ some u
    → least ((k, hs) ∷ m) ≡ some t
    → t ≡ (if leb k u then k else u)
unfolding least
least_cons k u t hs m first e = sym (some-injective _ _ (sym (rw (first, least) refl) ∙ e))

least_one :
    (k t : ℕ) (hs : List ℕ) (m : List (ℕ × List ℕ))
    → least m ≡ none
    → least ((k, hs) ∷ m) ≡ some t
    → t ≡ k
unfolding least
least_one k t hs m nothing e = sym (some-injective _ _ (sym (rw (nothing, least) refl) ∙ e))

-- The first key is a key.
pub least_key :
    (m : List (ℕ × List ℕ)) (t : ℕ) → least m ≡ some t → (hs : List ℕ) × (lookup m t ≡ some hs)
least_key [] t e = absurd (none-ne-some t (unfold least in e))
least_key ((k, hs) ∷ m) t e = elim (Option-cases (least m)) [
  | inl nothing ↦ (hs, here (least_one k t hs m nothing e))
  | inr (u, first) ↦ elim (Bool-cases (leb k u)) [
    | inl before ↦ (hs, here (least_cons k u t hs m first e ∙ rw before refl))
    | inr after ↦
        let (ks, at) = least_key m u first in
        let is_u : t ≡ u = least_cons k u t hs m first e ∙ rw after refl in
        (ks, there u is_u (leb→lt k u after) ∙ at)
  ]
]
  where
    here : t ≡ k → lookup ((k, hs) ∷ m) t ≡ some hs
    here same = ground arith

    there : (u : ℕ) → t ≡ u → u < k → lookup ((k, hs) ∷ m) t ≡ lookup m u
    there u same less = rw same (go u less)
      where
        go : (u : ℕ) → u < k → lookup ((k, hs) ∷ m) u ≡ lookup m u
        go u less = ground arith

-- No key is before it.
pub least_before :
    (m : List (ℕ × List ℕ)) (t s : ℕ) (ks : List ℕ)
    → least m ≡ some t
    → lookup m s ≡ some ks
    → t ≤ s
least_before [] t s ks e found = absurd (none-ne-some ks found)
least_before ((k, hs) ∷ m) t s ks e found = elim (Option-cases (least m)) [
  | inl nothing ↦ elim (Bool-cases (s == k)) [
    | inl same ↦ omega (arith, least_one k t hs m nothing e, ==-eq s k same)
    | inr other ↦ absurd (none-ne-some ks (sym (no_least m s nothing) ∙ behind other))
  ]
  | inr (u, first) ↦ elim (Bool-cases (s == k)) [
    | inl same ↦ first_le u s (least_cons k u t hs m first e) (omega (arith, ==-eq s k same))
    | inr other ↦
        next_le u (least_cons k u t hs m first e) (least_before m u s ks first (behind other))
  ]
]
  where
    behind : (s == k) ≡ false → lookup m s ≡ some ks
    behind other = sym (rw other refl) ∙ found

    first_le : (u s : ℕ) → t ≡ (if leb k u then k else u) → k ≤ s → t ≤ s
    first_le u s e le = ground arith

    next_le : (u : ℕ) → t ≡ (if leb k u then k else u) → u ≤ s → t ≤ s
    next_le u e le = ground arith

-- The point that getLastestTimeoutPoint gives is one of the bound time points, none of which is before
-- it, and getLatestTimeoutHandlers gives the handlers at it.
pub latest_timeout_least :
    (r : Repo) (t s : ℕ) (ks : List ℕ)
    → latest_timeout_point r ≡ some t
    → lookup r.timeout_handlers s ≡ some ks
    → ((hs : List ℕ) × (lookup r.timeout_handlers t ≡ some hs) × (latest_timeout_handlers r ≡ hs))
      × (t ≤ s)
unfolding latest_timeout_point latest_timeout_handlers
latest_timeout_least r t s ks e found =
    let (hs, at) = least_key r.timeout_handlers t e in
    (
      (hs, at, rw (e, latest_timeout_handlers) (rw (at, handlers_at) refl)),
      least_before r.timeout_handlers t s ks e found,
    )

-- A handler that was not at ACCEPT_EVENT before is bound with ACCEPT_EVENT: it is then found at
-- READ_EVENT, and unbinding it with ACCEPT_EVENT changes nothing and returns -1.
pub accept_unbind :
    (expiration : ℕ → Option ℕ) (r : Repo) (h handler : ℕ)
    → get_handler r (some h) accept_event ≢ some handler
    → ((bind_new expiration r (some h) accept_event (some handler)).1 ≡ pos 0)
      × (get_handler
            (bind_new expiration r (some h) accept_event (some handler)).0
            (some h)
            read_event
          ≡ some handler)
      × (unbind expiration
            (bind_new expiration r (some h) accept_event (some handler)).0
            (some h)
            accept_event
            (some handler)
          ≡ ((bind_new expiration r (some h) accept_event (some handler)).0, negsuc 0))
accept_unbind expiration r h handler other =
    let (done, at_read) =
      get_handler-bind_new expiration r h accept_event handler refl refl h read_event in
    let (_, at_accept) =
      get_handler-bind_new expiration r h accept_event handler refl refl h accept_event in
    (
      done,
      at_read ∙ rw (same h) refl,
      unbind_refused expiration _ h accept_event handler refl
          (λ found. other (sym (at_accept ∙ rw (same h) refl) ∙ found)),
    )
  where
    same : (n : ℕ) → (n == n) ≡ true
    same n = ground arith
