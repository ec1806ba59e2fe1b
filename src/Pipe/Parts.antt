-- ===== src/Pipe/Parts.antt =====
-- Lab06/src/02 Pipe/main.c: the readers when `read` moves less than a message, as from a pipe that is
-- smaller than one.
use esercitazioni_sistemi_di.Base.{ℕ, ◌*◌, ◌<◌, ◌≡◌, some, get_elem?}
use esercitazioni_sistemi_di.Pipe.Processes.{
  ReaderPc, reading, Reader, System, Turn, writer, reader,
}

-- A call of `read` moves fewer bytes than a message has.
abbrev pub ReadsPart : ℕ → Turn → Type 0
ReadsPart elems (writer k n stop) = Unit {0}
ReadsPart elems (reader k n) = n < 4 * elems

-- A reader that has not completed a message.
abbrev Unread : ℕ → ReaderPc → ℕ → Type 0
Unread elems (reading ri) i = (i ≡ 0) × (ri < 4 * elems)
Unread elems ReaderPc.post_mutex i = ⊥
Unread elems ReaderPc.ended i = ⊥
Unread elems pc i = i ≡ 0

abbrev AllUnread : ℕ → System → Type 0
AllUnread elems s = (k : ℕ) (r : Reader) → get_elem? s.readers k ≡ some r → Unread elems r.pc r.i
