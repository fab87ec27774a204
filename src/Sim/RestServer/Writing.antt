-- ===== src/Sim/RestServer/Writing.antt =====
-- sim/http/rest_server.cpp: the write loop sends the response, whatever the sizes of the writes.
use kalshi_cpp.Prelude.{
  ℕ, ◌+◌, ◌≤◌, ◌≡◌, inl, inr, sym, ap, ◌∙◌, true, false, some, List, [], ◌∷◌, ◌++◌, arith, length,
  take, drop, ◌==◌, ==→eq, take-drop, drop-drop, drop-all, Bytes, Bool-cases,
}
use kalshi_cpp.Sim.RestServer.{Written, took, interrupted, failed, write_loop}

-- write takes no more bytes than it is offered.
abbrev pub Offered : Bytes → ℕ → List Written → Type 0
Offered resp sent [] = Unit {0}
Offered resp sent (took n ∷ ws) = (sent + n ≤ length resp) × Offered resp (sent + n) ws
Offered resp sent (interrupted ∷ ws) = Offered resp sent ws
Offered resp sent (failed ∷ ws) = Offered resp sent ws

write_loop-took :
    (resp : Bytes) (sent n : ℕ) (ws : List Written)
    → (sent == length resp) ≡ false
    → write_loop resp sent (took n ∷ ws) ≡ (
      take n (drop sent resp) ++ (write_loop resp (sent + n) ws).0,
      (write_loop resp (sent + n) ws).1,
    )
unfolding write_loop
write_loop-took resp sent n ws e = ground (arith, e)

write_loop-interrupted :
    (resp : Bytes) (sent : ℕ) (ws : List Written)
    → (sent == length resp) ≡ false
    → write_loop resp sent (interrupted ∷ ws) ≡ write_loop resp sent ws
unfolding write_loop
write_loop-interrupted resp sent ws e = ground (arith, e)

write_loop-failed :
    (resp : Bytes) (sent : ℕ) (ws : List Written)
    → (sent == length resp) ≡ false
    → write_loop resp sent (failed ∷ ws) ≡ ([], some false)
unfolding write_loop
write_loop-failed resp sent ws e = ground (arith, e)

write_loop-done :
    (resp : Bytes) (sent : ℕ) (w : Written) (ws : List Written)
    → (sent == length resp) ≡ true
    → write_loop resp sent (w ∷ ws) ≡ ([], some true)
unfolding write_loop
write_loop-done resp sent w ws e = ground (arith, e)

sent_all :
    (resp : Bytes) (sent : ℕ) (ws : List Written) (w : Written)
    → (sent == length resp) ≡ true
    → (write_loop resp sent (w ∷ ws)).0 ≡ drop sent resp
sent_all resp sent ws w e =
    ap (λ t. t.0) (write_loop-done resp sent w ws e)
    ∙ sym (drop-all sent resp (==→eq sent (length resp) e))

-- When the loop reports success, and write took no more bytes than it was offered, the socket has
-- taken the bytes from `sent` on, all and in order.
pub write_loop-sends :
    (resp : Bytes) (sent : ℕ) (ws : List Written)
    → Offered resp sent ws
    → (write_loop resp sent ws).1 ≡ some true
    → (write_loop resp sent ws).0 ≡ drop sent resp
unfolding write_loop
write_loop-sends resp sent [] o h = sym (drop-all sent resp (ground arith))
write_loop-sends resp sent (took n ∷ ws) o h = elim (Bool-cases (sent == length resp)) [
  | inl e ↦ sent_all resp sent ws (took n) e
  | inr e ↦
      let step = write_loop-took resp sent n ws e in
      let rest : (write_loop resp (sent + n) ws).0 ≡ drop (sent + n) resp =
        write_loop-sends resp (sent + n) ws o.1 (sym (ap (λ t. t.1) step) ∙ h) in
      ap (λ t. t.0) step
      ∙ (ap (λ t. take n (drop sent resp) ++ t) (rest ∙ sym (drop-drop sent n resp))
          ∙ take-drop n (drop sent resp))
]
write_loop-sends resp sent (interrupted ∷ ws) o h = elim (Bool-cases (sent == length resp)) [
  | inl e ↦ sent_all resp sent ws interrupted e
  | inr e ↦
      let step = write_loop-interrupted resp sent ws e in
      ap (λ t. t.0) step ∙ write_loop-sends resp sent ws o (sym (ap (λ t. t.1) step) ∙ h)
]
write_loop-sends resp sent (failed ∷ ws) o h = elim (Bool-cases (sent == length resp)) [
  | inl e ↦ sent_all resp sent ws failed e
  | inr e ↦
      let no_success : some false ≡ some true =
        sym (ap (λ t. t.1) (write_loop-failed resp sent ws e)) ∙ h in
      cc
]
