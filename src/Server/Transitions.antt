-- ===== src/Server/Transitions.antt =====
-- What each step of a connection's life does to the map and the objects.
use epoll_server.Base.{
  ℕ, ◌≡◌, ◌≢◌, refl, sym, ap, ◌∙◌, subst, false, none, List, ◌∷◌, ◌++◌, All, All-append, ◌==◌,
  ==_iff, Bool-cases, inl, inr, false≢true,
}
use epoll_server.Server.{ConnRef, ConnectionsMap, insert, erase}
use epoll_server.Server.Lifecycle.{Phase, serving, closing, destroying, Live, Unused, with_phase}
use epoll_server.Server.Owners.{
  entry_of, HasEntry, Apart, Owned, All-split, All-parts, All-zip, Apart-split, Apart-join,
  insert_self, insert_other, erase_self, erase_other,
}

-- A new object whose descriptor was unused.
pub insert-Owned :
    (c : ConnRef) (m : ConnectionsMap) (live : List Live)
    → Unused c.client_fd live
    → Owned m live
    → Owned (insert c.client_fd c m) (record { conn = c; phase = serving } ∷ live)
insert-Owned c m live u o = record {
  apart = (u, o.apart);
  entries = (
    insert_self c.client_fd c m,
    All-zip (λ l. l.conn.client_fd ≢ c.client_fd) (HasEntry m) (HasEntry (insert c.client_fd c m))
        live (λ l n h. insert_other c.client_fd l.conn.client_fd c m n ∙ h) u o.entries,
  );
  empty = λ fd v. insert_other c.client_fd fd c m (λ e. v.0 (sym e)) ∙ o.empty fd v.1;
}

-- What an object's place in the list says.
pub record Placed (m : ConnectionsMap) (before after : List Live) (l : Live) : Type 0 where
  before_unused : Unused l.conn.client_fd before
  after_unused : Unused l.conn.client_fd after
  others_apart : Apart (before ++ after)
  before_entries : All (HasEntry m) before
  pub entry : HasEntry m l
  after_entries : All (HasEntry m) after

pub Owned-Placed :
    (m : ConnectionsMap) (before after : List Live) (l : Live)
    → Owned m (before ++ (l ∷ after))
    → Placed m before after l
Owned-Placed m before after l o =
    let (b, a, rest) = Apart-split before after l o.apart in
    let (eb, el, ea) = All-split (HasEntry m) before l after o.entries in
    record {
      before_unused = b;
      after_unused = a;
      others_apart = rest;
      before_entries = eb;
      entry = el;
      after_entries = ea;
    }

-- The same descriptor, in another phase.
phase-Unused :
    (p : Phase) (before after : List Live) (l : Live) (fd : ℕ)
    → Unused fd (before ++ (with_phase p l ∷ after))
    → Unused fd (before ++ (l ∷ after))
phase-Unused p before after l fd u =
    let (b, at, a) = All-split (λ j. j.conn.client_fd ≢ fd) before (with_phase p l) after u in
    All-append (λ j. j.conn.client_fd ≢ fd) before (l ∷ after) b (at, a)

pub close_called-Owned :
    (m : ConnectionsMap) (before after : List Live) (l : Live)
    → l.phase ≡ serving
    → Owned m (before ++ (l ∷ after))
    → Owned m (before ++ (with_phase closing l ∷ after))
close_called-Owned m before after l e o =
    let p : Placed m before after l = Owned-Placed m before after l o in
    record {
      apart =
          Apart-join before after (with_phase closing l) p.before_unused p.after_unused
            p.others_apart;
      entries =
          All-append (HasEntry m) before (with_phase closing l ∷ after) p.before_entries
            (p.entry ∙ ap (λ q. entry_of (with_phase q l)) e, p.after_entries);
      empty = λ fd u. o.empty fd (phase-Unused closing before after l fd u);
    }

-- The entries of objects with other descriptors stay.
erase-entries :
    (fd : ℕ) (m : ConnectionsMap) (live : List Live)
    → Unused fd live
    → All (HasEntry m) live
    → All (HasEntry (erase fd m)) live
erase-entries fd m live =
    All-zip (λ l. l.conn.client_fd ≢ fd) (HasEntry m) (HasEntry (erase fd m)) live
      (λ l n h. erase_other fd l.conn.client_fd m n ∙ h)

erase_empty : (fd key : ℕ) (m : ConnectionsMap) → m key ≡ none → erase fd m key ≡ none
unfolding erase
erase_empty fd key m e = elim (Bool-cases (key == fd)) [
  | inl h ↦ rw h refl
  | inr h ↦ rw (h, e) refl
]

pub erase-Owned :
    (m : ConnectionsMap) (before after : List Live) (l : Live)
    → Owned m (before ++ (l ∷ after))
    → Owned (erase l.conn.client_fd m) (before ++ (with_phase destroying l ∷ after))
erase-Owned m before after l o =
    let p : Placed m before after l = Owned-Placed m before after l o in
    let fd : ℕ = l.conn.client_fd in
    record {
      apart =
          Apart-join before after (with_phase destroying l) p.before_unused p.after_unused
            p.others_apart;
      entries =
          All-append (HasEntry (erase fd m)) before (with_phase destroying l ∷ after)
            (erase-entries fd m before p.before_unused p.before_entries)
            (erase_self fd m, erase-entries fd m after p.after_unused p.after_entries);
      empty = λ key u.
          erase_empty fd key m (o.empty key (phase-Unused destroying before after l key u));
    }

still-Unused :
    (before after : List Live) (l : Live) (fd : ℕ)
    → l.conn.client_fd == fd ≡ false
    → Unused fd (before ++ after)
    → Unused fd (before ++ (l ∷ after))
still-Unused before after l fd h u =
    let (b, a) = All-parts (λ j. j.conn.client_fd ≢ fd) before after u in
    All-append (λ j. j.conn.client_fd ≢ fd) before (l ∷ after) b
      ((λ e. false≢true (sym h ∙ (==_iff l.conn.client_fd fd).1 e)), a)

pub destroyed-Owned :
    (m : ConnectionsMap) (before after : List Live) (l : Live)
    → l.phase ≡ destroying
    → Owned m (before ++ (l ∷ after))
    → Owned m (before ++ after)
destroyed-Owned m before after l e o =
    let p : Placed m before after l = Owned-Placed m before after l o in
    record {
      apart = p.others_apart;
      entries = All-append (HasEntry m) before after p.before_entries p.after_entries;
      empty = λ fd u. elim (Bool-cases (l.conn.client_fd == fd)) [
        | inl h ↦
            subst (λ k. m k ≡ none) ((==_iff l.conn.client_fd fd).0 h)
              (p.entry ∙ ap (λ q. entry_of (with_phase q l)) e)
        | inr h ↦ o.empty fd (still-Unused before after l fd h u)
      ];
    }
