-- ===== src/Siem/Log.antt =====
-- The write-ahead log over a turn of `retry_worker`.
use sentinel_ai_v3_0_the_fin.Prelude.{
  ℕ, ◌+◌, String, ◌≡◌, refl, ap, ◌∙◌, sym, Bool, ◌++◌, List, [], ◌∷◌,
}
use mathlib.Core.List.{append_assoc, append-nil}
use sentinel_ai_v3_0_the_fin.Siem.{
  RootHashPayload, Judged, Trail, Delivery, unreached, unanswered, answered, resend, resend_all,
  retry_wal,
}

-- The lines whose POST was not answered, in their order, the first of them being the n-th.
abbrev pub kept_line : Delivery → RootHashPayload → List RootHashPayload
kept_line answered line = []
kept_line _ line = line ∷ []

abbrev pub unsent : (ℕ → Delivery × Bool) → ℕ → List RootHashPayload → List RootHashPayload
unsent world n [] = []
unsent world n (line ∷ lines) = kept_line (world n).0 line ++ unsent world (n + 1) lines

module _ (verify : String → String → Judged) where
  resend-wal :
      (d : Delivery) (fails : Bool) (line : RootHashPayload) (t : Trail)
      → (resend verify d fails line t).wal ≡ t.wal ++ kept_line d line
  resend-wal unreached fails line t = refl
  resend-wal unanswered fails line t = refl
  resend-wal answered fails line t = sym (append-nil t.wal)

  resend_all-wal :
      (world : ℕ → Delivery × Bool) (n : ℕ) (lines : List RootHashPayload) (t : Trail)
      → (resend_all verify world n lines t).wal ≡ t.wal ++ unsent world n lines
  unfolding resend_all
  resend_all-wal world n [] t = sym (append-nil t.wal)
  resend_all-wal world n (line ∷ lines) t =
      resend_all-wal world (n + 1) lines (resend verify (world n).0 (world n).1 line t)
      ∙ ap (λ w. w ++ unsent world (n + 1) lines) (resend-wal (world n).0 (world n).1 line t)
      ∙ append_assoc t.wal (kept_line (world n).0 line) (unsent world (n + 1) lines)

  -- The retry worker keeps what it could not send: after a turn the log holds exactly the lines whose
  -- POST was not answered, in their order.
  pub retry_wal-unsent :
      (world : ℕ → Delivery × Bool) (t : Trail)
      → (retry_wal verify world t).wal ≡ unsent world 0 t.wal
  unfolding retry_wal
  retry_wal-unsent world t = resend_all-wal world 0 t.wal (record t { wal = [] })
