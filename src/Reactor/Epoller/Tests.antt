-- ===== src/Reactor/Epoller/Tests.antt =====
-- Runs of src/reactor/epoller.cpp over a kernel that keeps one interest list.
use unp.Base.{
  ℕ, ◌≡◌, refl, sym, Bool, true, false, false≢true, some, List, [], ◌∷◌, ◌==◌, if◌then◌else◌,
}
use unp.Base.Int.{pos}
use unp.Reactor.Assoc.{lookup, erase, put, lookup-put, lookup-erase}
use unp.Reactor.Epoller.{
  Ctl, ctl_add, ctl_mod, ctl_del, Kernel, IsEpoll, Epoller, add, del, has, tell,
}
use unp.Reactor.Epoller.Synced.{Synced, add-Synced, del-Synced}

-- The list, and whether another handle is still taken.
pub record Kept : Type 0 where
  pub list : List (ℕ × ℕ)
  pub full : Bool

abbrev kept_ctl : Kept → Ctl → ℕ → ℕ → Kept × Bool
kept_ctl k ctl_add h e = if k.full then (k, false) else (record k { list = put k.list h e }, true)
kept_ctl k ctl_mod h e = (record k { list = put k.list h e }, true)
kept_ctl k ctl_del h e = (record k { list = erase k.list h }, true)

abbrev pub kept : Kernel Kept
kept = record {
  epoll_create = λ k. (k, pos 5);
  epoll_ctl = λ k fd op h e. kept_ctl k op h e;
  epoll_wait = λ k fd max_events timeout. (k, ([], pos 0));
  close_fd = λ k fd. (k, pos 0);
}

kept_added :
    (k : Kept) (h e : ℕ) (full : Bool)
    → k.full ≡ full
    → (kept_ctl k ctl_add h e).1 ≡ true
    → (j : ℕ)
    → lookup (kept_ctl k ctl_add h e).0.list j ≡ (if j == h then some e else lookup k.list j)
kept_added k h e true is told j = absurd (false≢true (rw is at told))
kept_added k h e false is told j = rw is (lookup-put k.list h e j)

kept_refused :
    (k : Kept) (op : Ctl) (h e : ℕ)
    → (kept_ctl k op h e).1 ≡ false
    → (j : ℕ) → lookup (kept_ctl k op h e).0.list j ≡ lookup k.list j
kept_refused k ctl_add h e told j = go k.full refl
  where
    go : (full : Bool) → k.full ≡ full → lookup (kept_ctl k ctl_add h e).0.list j ≡ lookup k.list j
    go true is = rw is refl
    go false is = absurd (false≢true (sym (rw is at told)))
kept_refused k ctl_mod h e told j = absurd (false≢true (sym told))
kept_refused k ctl_del h e told j = absurd (false≢true (sym told))

kept-IsEpoll : IsEpoll kept
kept-IsEpoll = record {
  interest = λ k fd j. lookup k.list j;
  added = λ k fd h e told. kept_added k h e k.full refl told;
  modified = λ k fd h e told j. lookup-put k.list h e j;
  deleted = λ k fd h e told j. lookup-erase k.list h j;
  refused = λ k fd op h e told. kept_refused k op h e told;
}

abbrev pub fresh_epoller : Epoller Kept
fresh_epoller = record {
  epoll_fd = pos 5;
  events = [];
  kernel = record { list = []; full = false };
}

abbrev full_epoller : Epoller Kept
full_epoller = record fresh_epoller { kernel = record { list = []; full = true } }

-- EPOLLIN and EPOLLOUT of handle 7.
abbrev two_events : Epoller Kept
two_events = record {
  epoll_fd = pos 5;
  events = (7, 5) ∷ [];
  kernel = record { list = (7, 5) ∷ []; full = false };
}

two_added : (add kept (add kept fresh_epoller 7 1).0 7 4).0 ≡ two_events
unfolding add tell
two_added = refl

add-Synced_example :
    Synced kept kept-IsEpoll (add kept fresh_epoller 7 1).0
    × (has kept (add kept fresh_epoller 7 1).0 7 1 ≡ true)
unfolding add tell kept-IsEpoll
add-Synced_example = add-Synced kept kept-IsEpoll fresh_epoller 7 1 (λ h. refl) refl refl

del-Synced_example : Synced kept kept-IsEpoll (del kept two_events 7 1).0
unfolding kept-IsEpoll
del-Synced_example = del-Synced kept kept-IsEpoll two_events 7 1 (λ h. refl)
