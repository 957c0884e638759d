-- ===== src/Store/Newest.antt =====
-- `ListHistory` of internal/store/store.go after `AddHistory`.
use rcon_ui.Base.{
  ℕ, zero, suc, ◌≤◌, ◌≡◌, refl, sym, ap, ◌∙◌, Bool, true, false, List, [], ◌∷◌, ◌++◌, append-nil,
  arith, take, All, filter, filter-append,
}
use rcon_ui.Base.Int.{ℤ}
use rcon_ui.Text.{Text, ◌===◌, ===_refl}
use rcon_ui.Text.Keyed.{has_key}
use rcon_ui.Store.{HistoryEntry, Database, row_id}
use rcon_ui.Store.Records.{add_history, list_history, order_by, is_newer, page_size}
use rcon_ui.Store.Sorting.{order_by-append, All_kept}
use rcon_ui.Store.Intact.{IsIntact}

take-take_more {ℓ} : {A : Type ℓ} (n : ℕ) (xs : List A) → take n (take (suc n) xs) ≡ take n xs
take-take_more zero xs = refl
take-take_more (suc n) [] = refl
take-take_more (suc n) (x ∷ xs) = ap (λ zs. x ∷ zs) (take-take_more n xs)

take-take {ℓ} :
    {A : Type ℓ} (n : ℕ) (x : A) (xs : List A) → take n (x ∷ take n xs) ≡ take n (x ∷ xs)
take-take zero x xs = refl
take-take (suc n) x xs = ap (λ zs. x ∷ zs) (take-take_more n xs)

-- The entry of a command.
abbrev entry : ℕ → Text → Text → Database → HistoryEntry
entry now id command db = record {
  id = suc db.last_id;
  server_id = id;
  command = command;
  at = now;
}

-- A new entry is newer than all, where the clock does not go back.
is_newer-entry :
    (now : ℕ) (id command : Text) (db : Database) (xs : List HistoryEntry)
    → All (λ h. h.id ≤ db.last_id) xs
    → All (λ h. h.at ≤ now) xs
    → All (λ h. is_newer (entry now id command db) h ≡ true) xs
is_newer-entry now id command db [] c o = tt
is_newer-entry now id command db (x ∷ xs) (p, c) (q, o) =
    (ground arith, is_newer-entry now id command db xs c o)

-- Where the constraints of the tables hold and the clock does not go back, a command that is
-- recorded for a server that is there stands first in its history, before what the history showed,
-- of which the last may fall off; the other histories stay.
pub list_history-add_history :
    (now : ℕ) (id other command : Text) (limit : ℤ) (db : Database)
    → IsIntact db
    → All (λ h. h.at ≤ now) db.history
    → has_key row_id id db.servers ≡ true
    → let db' = (add_history now id command db).1 in
      (list_history id limit db'
        ≡ take (page_size limit) (entry now id command db ∷ list_history id limit db))
      × ((id === other) ≡ false → list_history other limit db' ≡ list_history other limit db)
unfolding add_history list_history
list_history-add_history now id other command limit db h older e =
    let new = entry now id command db in
    let own : HistoryEntry → Bool = λ x. x.server_id === id in
    let split : filter own (db.history ++ new ∷ []) ≡ filter own db.history ++ new ∷ [] =
      filter-append own db.history (new ∷ []) ∙ rw (===_refl id) refl in
    let first : order_by is_newer (filter own (db.history ++ new ∷ []))
        ≡ new ∷ order_by is_newer (filter own db.history) =
      ap (order_by is_newer) split
      ∙ order_by-append is_newer (filter own db.history) new (
          All_kept own db.history (λ x _ q. q)
            (is_newer-entry now id command db db.history h.counted older)) in
    let theirs : HistoryEntry → Bool = λ x. x.server_id === other in
    let kept : (id === other) ≡ false
        → filter theirs (db.history ++ new ∷ []) ≡ filter theirs db.history =
      λ n.
        filter-append theirs db.history (new ∷ []) ∙ rw n (append-nil (filter theirs db.history)) in
    (
      rw e (
          ap (take (page_size limit)) first
          ∙ sym (take-take (page_size limit) new (order_by is_newer (filter own db.history)))),
      λ n. rw e (ap (λ xs. take (page_size limit) (order_by is_newer xs)) (kept n)),
    )
