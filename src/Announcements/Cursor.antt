-- ===== src/Announcements/Cursor.antt =====
-- The cursor of a page.
use thesdel.Base.{
  ℕ, ◌≡◌, refl, ◌∙◌, ap, sym, ◌≢◌, some-injective, inl, inr, false, some, [], ◌∷◌, ◌++◌, any, ◌==◌,
  arith, Bool-cases,
}
use thesdel.Time.{Text}
use thesdel.Announcements.{Codec, split_bar, encode_cursor, decode_cursor}

split_bar-append :
    (a b : Text) → any (λ c. c == 124) a ≡ false → split_bar (a ++ 124 ∷ b) ≡ some (a, b)
unfolding split_bar
split_bar-append [] b h = refl
split_bar-append (c ∷ cs) b h = elim (Bool-cases (c == 124)) [
  | inl e ↦ absurd (ground arith)
  | inr e ↦ rw (e, split_bar-append cs b (rw e at h)) refl
]

-- A cursor gives back the moment and the id that it was made of.
pub decode_cursor-encode_cursor :
    (codec : Codec) (created_at id : ℕ)
    → decode_cursor codec (encode_cursor codec created_at id) ≡ some (created_at, id)
unfolding decode_cursor encode_cursor
decode_cursor-encode_cursor codec created_at id = ground (
  arith,
  codec.b64decode-b64encode (codec.isoformat created_at ++ 124 ∷ codec.id_text id),
  split_bar-append (codec.isoformat created_at) (codec.id_text id) (codec.isoformat_bar created_at),
  codec.fromisoformat-isoformat created_at,
  codec.object_id-id_text id,
)

with_bar : (a b : Text) → a ++ 124 ∷ b ≢ []
with_bar [] b h = cc
with_bar (c ∷ cs) b h = cc

-- A cursor is not empty, so it is never taken for none.
pub encode_cursor_ne : (codec : Codec) (created_at id : ℕ) → encode_cursor codec created_at id ≢ []
unfolding encode_cursor
encode_cursor_ne codec created_at id h =
    let raw = codec.isoformat created_at ++ 124 ∷ codec.id_text id in
    let same : some raw ≡ some [] =
      sym (codec.b64decode-b64encode raw) ∙ ap codec.urlsafe_b64decode h ∙ codec.b64decode_empty in
    with_bar (codec.isoformat created_at) (codec.id_text id) (some-injective same)
