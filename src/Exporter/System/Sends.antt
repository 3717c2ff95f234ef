-- ===== src/Exporter/System/Sends.antt =====
-- What becomes of a message in the channel of src/exporter.rs.
use rolly.Base.{
  ℕ, suc, ◌+◌, ◌≤◌, ◌<◌, ◌≡◌, sym, ap, ◌∙◌, inl, inr, Bool-cases, true, false, none, some, List, [],
  ◌∷◌, ◌++◌, arith, ltb, length,
}
use rolly.Exporter.{ExportMessage, traces, logs, metrics, flush, shutdown, Mpsc}
use rolly.Exporter.System.{can_send}

-- A message with data, which a `send_…` call makes.
abbrev pub data_count : List ExportMessage → ℕ
data_count [] = 0
data_count (traces b ∷ ms) = suc (data_count ms)
data_count (logs b ∷ ms) = suc (data_count ms)
data_count (metrics b ∷ ms) = suc (data_count ms)
data_count (flush done ∷ ms) = data_count ms
data_count (shutdown ∷ ms) = data_count ms

pub data_count-append :
    (xs ys : List ExportMessage) → data_count (xs ++ ys) ≡ data_count xs + data_count ys
data_count-append [] ys = omega arith
data_count-append (traces b ∷ xs) ys = omega (arith, data_count-append xs ys)
data_count-append (logs b ∷ xs) ys = omega (arith, data_count-append xs ys)
data_count-append (metrics b ∷ xs) ys = omega (arith, data_count-append xs ys)
data_count-append (flush done ∷ xs) ys = data_count-append xs ys
data_count-append (shutdown ∷ xs) ys = data_count-append xs ys

module _ (ch : Mpsc) where
  -- `try_send` succeeds only on an open channel with room.
  pub try_send-some :
      (m : ExportMessage) (tx tx' : ch.Sender)
      → ch.try_send m tx ≡ some tx'
      → (ch.is_closed tx ≡ false)
        × (length (ch.queued tx) < ch.capacity tx)
        × (ch.queued tx' ≡ ch.queued tx ++ (m ∷ []))
        × (ch.capacity tx' ≡ ch.capacity tx)
        × (ch.is_closed tx' ≡ false)
  try_send-some m tx tx' e = elim (Bool-cases (ch.is_closed tx)) [
    | inl closed ↦
        let d = ch.refuses m tx (inl closed) in absurd (let c : none ≡ some tx' = sym d ∙ e in cc)
    | inr opened ↦ elim (Bool-cases (ltb (length (ch.queued tx)) (ch.capacity tx))) [
      | inl room ↦
          let lt : length (ch.queued tx) < ch.capacity tx = ground (arith, room) in
          let (t, d, q, c, o) = ch.accepts m tx opened lt in
          let same : t ≡ tx' = some_eq (sym d ∙ e) in
          (
            opened,
            lt,
            ap ch.queued (sym same) ∙ q,
            ap ch.capacity (sym same) ∙ c,
            ap ch.is_closed (sym same) ∙ o,
          )
      | inr full ↦
          let le : ch.capacity tx ≤ length (ch.queued tx) = ground (arith, full) in
          let d = ch.refuses m tx (inr le) in absurd (let c : none ≡ some tx' = sym d ∙ e in cc)
    ]
  ]
    where
      some_eq : {x y : ch.Sender} → some x ≡ some y → x ≡ y
      some_eq h = cc

  -- A `send` that is over comes to what `try_send` does.
  pub send-eq-try_send :
      (m : ExportMessage) (tx : ch.Sender) → can_send ch tx ≡ true → ch.send m tx ≡ ch.try_send m tx
  unfolding can_send
  send-eq-try_send m tx over = elim (Bool-cases (ch.is_closed tx)) [
    | inl closed ↦ ch.refuses_send m tx closed ∙ sym (ch.refuses m tx (inl closed))
    | inr opened ↦ ch.send-room m tx opened (ground (arith, opened, over))
  ]
