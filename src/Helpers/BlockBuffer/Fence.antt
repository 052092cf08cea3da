-- ===== src/Helpers/BlockBuffer/Fence.antt =====
-- An opening fence that comes in two parts: its start by the timer, the whole line later.
use acpp.Prelude.{Bytes, has_prefix, ◌≡◌, refl, Bool, true, false, Option, none, List}
use acpp.Helpers.BlockBuffer.{Held, fence, handle_line, plain_line, code_line, output_block, opened}

module _ {ℓ κ} {T : Type ℓ} {E : Type κ} (output : T → Bytes → Bool → T × Option E)
    (table_output : Option (T → List Bytes → T × Option E)) where
  opens :
      (h : Held) (t : T) (line : Bytes)
      → h.in_code_block ≡ false
      → h.in_table ≡ false
      → has_prefix line fence ≡ true
      → handle_line output table_output (h, t) line false ≡ ((opened h line, t), none)
  unfolding handle_line plain_line
  opens h t line c b f = rw (c, b, f) refl

  closes :
      (h : Held) (t : T) (line : Bytes) (update : Bool)
      → h.in_code_block ≡ true
      → has_prefix line fence ≡ true
      → (handle_line output table_output (h, t) line update).0.0.in_code_block ≡ false
  unfolding handle_line code_line output_block
  closes h t line update c f = rw (c, f) refl

  -- Outside of blocks and tables, the start of an opening fence and then its update leave the buffer
  -- outside of a block: the update is taken for the closing fence.
  pub update_closes :
      (h : Held) (t : T) (line line' : Bytes)
      → h.in_code_block ≡ false
      → h.in_table ≡ false
      → has_prefix line fence ≡ true
      → has_prefix line' fence ≡ true
      → let r = handle_line output table_output (h, t) line false in
        r.0.0.in_code_block ≡ true
        × (handle_line output table_output r.0 line' true).0.0.in_code_block ≡ false
  unfolding opened
  update_closes h t line line' c b f g =
      rw (opens h t line c b f) (refl, closes (opened h line) t line' true refl g)
