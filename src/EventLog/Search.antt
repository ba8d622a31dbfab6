-- ===== src/EventLog/Search.antt =====
-- How the readers of eventlog.c find the marker of an event.
use conftron.Base.{
  ℕ, ◌+◌, ◌*◌, ◌%◌, ◌^◌, ◌≡◌, ◌≢◌, sym, ap, ap₂, ◌∙◌, true, false, List, ◌++◌, [], ◌∷◌, length,
  length-append, append_assoc, drop-length_append, arith, ne→==_false, eq→==, ℕ_discrete,
}
use conftron.CoreTypes.{bytes32}
use conftron.IoUtils.Reads.{standing}
use conftron.EventLog.{find_magic, find_event, magic_of_log}

module _ (m r : ℕ) (rest : List ℕ) (place : ℕ) where
  find_magic-found :
      (m * 2 ^ 8 + r) % 2 ^ 32 ≡ magic_of_log → find_magic m (r ∷ rest) place ≡ (true, place + 1)
  unfolding find_magic
  find_magic-found e = rw (eq→== _ _ e)

  find_magic-next :
      (m * 2 ^ 8 + r) % 2 ^ 32 ≢ magic_of_log
      → find_magic m (r ∷ rest) place ≡ find_magic ((m * 2 ^ 8 + r) % 2 ^ 32) rest (place + 1)
  unfolding find_magic
  find_magic-next e = rw (ne→==_false _ _ e)

-- The four bytes of the marker are found from every state of the search.
find_magic-marker :
    (m : ℕ) (xs : List ℕ) (place : ℕ)
    → find_magic m (bytes32 magic_of_log ++ xs) place ≡ (true, place + 4)
find_magic-marker m xs place =
    find_magic-next m 0xED _ place (λ e. omega (arith, e))
    ∙ (find_magic-next _ 0xA1 _ _ (λ e. omega (arith, e))
        ∙ (find_magic-next _ 0xDA _ _ (λ e. omega (arith, e))
            ∙ (find_magic-found _ 0x01 xs _ (omega arith) ∙ ap (λ n. (true, n)) (omega arith))))

-- A search that fails in `garbage` goes on behind it.
pub find_magic-append :
    (garbage xs : List ℕ) (m place : ℕ)
    → (find_magic m garbage place).0 ≡ false
    → (m' : ℕ) × (find_magic m (garbage ++ xs) place ≡ find_magic m' xs (place + length garbage))
find_magic-append [] xs m place h = (m, ap (find_magic m xs) (omega arith))
find_magic-append (r ∷ garbage) xs m place h =
    elim (ℕ_discrete ((m * 2 ^ 8 + r) % 2 ^ 32) magic_of_log) [
      | yes e ↦ cc (sym (ap (λ t. t.0) (find_magic-found m r garbage place e)) ∙ h)
      | no e ↦
          let (m', e') =
            find_magic-append garbage xs ((m * 2 ^ 8 + r) % 2 ^ 32) (place + 1)
              (sym (ap (λ t. t.0) (find_magic-next m r garbage place e)) ∙ h) in
          (
            m',
            find_magic-next m r (garbage ++ xs) place e
                ∙ (e' ∙ ap (find_magic m' xs) (omega arith)),
          )
    ]

-- A log that is read up to the end of `pre` and goes on with bytes in which the search finds nothing,
-- and then a marker, is read on behind the marker.
pub find_event-marker :
    (pre garbage post : List ℕ) (space : ℕ)
    → (find_magic 0 garbage (length pre)).0 ≡ false
    → find_event (standing pre (garbage ++ (bytes32 magic_of_log ++ post)) space)
      ≡ (true, standing ((pre ++ garbage) ++ bytes32 magic_of_log) post space)
unfolding find_event
find_event-marker pre garbage post space h =
    let (m', e) = find_magic-append garbage (bytes32 magic_of_log ++ post) 0 (length pre) h in
    rw
      (
        drop-length_append pre (garbage ++ (bytes32 magic_of_log ++ post)),
        e,
        find_magic-marker m' post (length pre + length garbage),
      )
      (ap₂ (λ contents place. (true, record { contents = contents; place = place; space = space }))
        same len)
  where
    marker : List ℕ
    marker = bytes32 magic_of_log

    same : pre ++ (garbage ++ (marker ++ post)) ≡ ((pre ++ garbage) ++ marker) ++ post
    same = rw (append_assoc (pre ++ garbage) marker post, append_assoc pre garbage (marker ++ post))

    len : length pre + length garbage + 4 ≡ length ((pre ++ garbage) ++ marker)
    len = omega (arith, length-append (pre ++ garbage) marker, length-append pre garbage)
