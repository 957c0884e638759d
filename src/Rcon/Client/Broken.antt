-- ===== src/Rcon/Client/Broken.antt =====
-- A client whose exchange failed on the way takes no further command.
use rcon_ui.Base.{
  ℕ, ◌+◌, ◌≡◌, refl, sym, ap, ◌∙◌, ◌⊎◌, inl, inr, Option, none, some, List, [], ◌∷◌, length,
}
use rcon_ui.Base.Int.{ℤ, pos}
use rcon_ui.Text.{Text}
use rcon_ui.Rcon.Packet.{Packet, type_exec_command, type_response_value}
use rcon_ui.Rcon.Client.{
  send_sentinel, send_command, read_response, Client, Failure, no_deadline, Collected, whole, lost,
  failure, fail, first_failure, finished, collect, read_reply, after_sentinel, after_command,
  next_write, write, next_request_id, exchange, guarded, execute,
}

-- The mark of a failure on a client that had none.
marked :
    (f e : Failure) (c c' : Client)
    → c.broken ≡ none
    → some (fail f c) ≡ some (failure e, c')
    → c'.broken ≡ some e
marked f e c c' b h =
    let same : f ≡ e = cc in
    let left : record c { broken = some (first_failure c.broken f) } ≡ c' = cc in
    sym (ap (λ (x : Client). x.broken) left) ∙ ap (λ o. some (first_failure o f)) b ∙ ap some same

finished_failure :
    (e : Failure) (c c' : Client) (o : Option Collected)
    → c.broken ≡ none
    → finished c o ≡ some (failure e, c')
    → c'.broken ≡ some e
finished_failure e c c' none b h = cc
finished_failure e c c' (some (whole text r)) b h = cc
finished_failure e c c' (some (lost f)) b h = marked (read_response f) e c c' b h

broken-next_write :
    (ws : List (Option Text)) (p : Packet) (c : Client) → (next_write ws p c).1.broken ≡ c.broken
broken-next_write [] p c = refl
broken-next_write (none ∷ ws) p c = refl
broken-next_write (some m ∷ ws) p c = refl

after_sentinel_failure :
    (a b : ℤ) (e : Failure) (c' : Client) (w : Option Text × Client)
    → w.1.broken ≡ none
    → after_sentinel a b w ≡ some (failure e, c')
    → c'.broken ≡ some e
unfolding read_reply
after_sentinel_failure a b e c' (some m, c) h q = marked (send_sentinel m) e c c' h q
after_sentinel_failure a b e c' (none, c) h q =
    finished_failure e c c' (collect (length c.reader.bytes + 1) a b [] c.reader) h q

after_command_failure :
    (a b : ℤ) (e : Failure) (c' : Client) (w : Option Text × Client)
    → w.1.broken ≡ none
    → after_command a b w ≡ some (failure e, c')
    → c'.broken ≡ some e
unfolding write
after_command_failure a b e c' (some m, c) h q = marked (send_command m) e c c' h q
after_command_failure a b e c' (none, c) h q =
    let p : Packet = record { id = b; typ = type_response_value; body = [] } in
    after_sentinel_failure a b e c' (next_write c.writes p c) (broken-next_write c.writes p c ∙ h) q

exchange_failure :
    (cmd : List ℕ) (e : Failure) (c c' : Client)
    → c.broken ≡ none
    → exchange cmd c ≡ some (failure e, c')
    → c'.broken ≡ some e
unfolding exchange write
exchange_failure cmd e c c' h q =
    let a = next_request_id c.next_id in
    let b = next_request_id a in
    let p : Packet = record { id = pos a; typ = type_exec_command; body = cmd } in
    after_command_failure (pos a) (pos b) e c' (next_write c.writes p (record c { next_id = b }))
      (broken-next_write c.writes p (record c { next_id = b }) ∙ h) q

refuses :
    (e : Failure) (c : Client)
    → c.broken ≡ some e
    → (deadline : Option Text) (cmd : List ℕ) → execute deadline cmd c ≡ some (failure e, c)
unfolding execute
refuses e c h deadline cmd = ap (λ b. guarded b deadline cmd c) h

guarded_failure :
    (o : Option Failure) (deadline : Option Text) (cmd : List ℕ) (e : Failure) (c c' : Client)
    → c.broken ≡ o
    → guarded o deadline cmd c ≡ some (failure e, c')
    → ((c' ≡ c) × (c.broken ≡ none) × ((m : Text) × (deadline ≡ some m) × (e ≡ no_deadline m)))
      ⊎ (c'.broken ≡ some e)
guarded_failure (some f) deadline cmd e c c' b q =
    let same : f ≡ e = cc in
    let left : c ≡ c' = cc in inr (sym (ap (λ (x : Client). x.broken) left) ∙ b ∙ ap some same)
guarded_failure none (some m) cmd e c c' b q = inl (cc, b, (m, refl, cc))
guarded_failure none none cmd e c c' b q = inr (exchange_failure cmd e c c' b q)

-- A command that fails leaves the client as it was, where the deadline cannot be set; or it leaves a
-- client that answers every later command with the same failure, and neither writes nor reads again.
pub execute_failure :
    (deadline : Option Text) (cmd : List ℕ) (e : Failure) (c c' : Client)
    → execute deadline cmd c ≡ some (failure e, c')
    → ((c' ≡ c) × (c.broken ≡ none) × ((m : Text) × (deadline ≡ some m) × (e ≡ no_deadline m)))
      ⊎ ((later : Option Text) (next : List ℕ) → execute later next c' ≡ some (failure e, c'))
unfolding execute
execute_failure deadline cmd e c c' q = elim (guarded_failure c.broken deadline cmd e c c' refl q) [
  | inl kept ↦ inl kept
  | inr b ↦ inr (refuses e c' b)
]
