-- ===== src/Receiver/Allowlist.antt =====
-- What the allowlist of src/collector/receiver.c lets in.
use dapper_lite.Prelude.{
  ℕ, suc, ◌+◌, ◌*◌, ◌≤◌, ◌≡◌, ◌≢◌, refl, sym, ap, ◌∙◌, Bool, true, false, Option, some, List, [],
  ◌∷◌, ◌++◌, map, leb, ◌==◌, lt→leb, if◌then◌else◌, arith, length, All, append_assoc, append-nil,
  length-append,
}
use dapper_lite.Prelude.Outcome.{ok, map_ok}
use dapper_lite.Receiver.{Receiver, listed, source_allowed}
use dapper_lite.Receiver.Create.{end_token, tokens_from, add_sources, parse_allowed_sources}

-- An address as it stands in a list, and its number.
pub record Entry : Type 0 where
  pub text : List ℕ
  pub address : ℕ

-- The entries with commas between them.
unfoldable pub comma_separated : List Entry → List ℕ
comma_separated [] = []
comma_separated (e ∷ []) = e.text
comma_separated (e ∷ next ∷ entries) = e.text ++ (44 ∷ comma_separated (next ∷ entries))

abbrev pub NoComma : ℕ → Type 0
NoComma c = c ≢ 44

-- A text that the system takes for the address, in 15 characters at most.
pub record IsEntry (inet_pton : List ℕ → Option ℕ) (e : Entry) : Type 0 where
  pub valid : inet_pton e.text ≡ some e.address
  pub filled : 1 ≤ length e.text
  pub short : length e.text ≤ 15
  pub plain : All NoComma e.text

-- Whether an address is that of an entry.
unfoldable pub has_address : List Entry → ℕ → Bool
has_address [] source = false
has_address (e ∷ entries) source = if e.address == source then true else has_address entries source

tokens_from-plain :
    (part text list : List ℕ)
    → All NoComma text
    → tokens_from part (text ++ list) ≡ tokens_from (part ++ text) list
unfolding tokens_from
tokens_from-plain part [] list h = ap (λ p. tokens_from p list) (sym (append-nil part))
tokens_from-plain part (c ∷ text) list h =
    let other : (c == 44) ≡ false = ground (arith, h.0) in
    rw other (
      tokens_from-plain (part ++ (c ∷ [])) text list h.1
      ∙ ap (λ p. tokens_from p list) (append_assoc part (c ∷ []) text))

end_token_filled :
    (text : List ℕ) (tokens : List (List ℕ))
    → 1 ≤ length text
    → end_token text tokens ≡ text ∷ tokens
end_token_filled [] tokens h = absurd (omega arith)
end_token_filled (c ∷ text) tokens h = refl

module _ (inet_pton : List ℕ → Option ℕ) where
  tokens_from-comma_separated :
      (e : Entry) (entries : List Entry)
      → All (IsEntry inet_pton) (e ∷ entries)
      → tokens_from [] (comma_separated (e ∷ entries)) ≡ map (λ x. x.text) (e ∷ entries)
  unfolding tokens_from comma_separated
  tokens_from-comma_separated e [] h =
      ap (tokens_from []) (sym (append-nil e.text))
      ∙ tokens_from-plain [] e.text [] h.0.plain
      ∙ end_token_filled e.text [] h.0.filled
  tokens_from-comma_separated e (next ∷ entries) h =
      tokens_from-plain [] e.text (44 ∷ comma_separated (next ∷ entries)) h.0.plain
      ∙ end_token_filled e.text _ h.0.filled
      ∙ ap (λ ts. e.text ∷ ts) (tokens_from-comma_separated next entries h.1)

  length-comma_separated :
      (e : Entry) (entries : List Entry)
      → All (IsEntry inet_pton) (e ∷ entries)
      → length (comma_separated (e ∷ entries)) ≤ 16 * length entries + 15
  unfolding comma_separated
  length-comma_separated e [] h = omega (arith, h.0.short)
  length-comma_separated e (next ∷ entries) h = omega (
    arith,
    length-append e.text (44 ∷ comma_separated (next ∷ entries)),
    h.0.short,
    length-comma_separated next entries h.1,
  )

  add_sources_lem :
      (allowed : List ℕ) (entries : List Entry)
      → All (IsEntry inet_pton) entries
      → length allowed + length entries ≤ 16
      → add_sources inet_pton allowed (map (λ x. x.text) entries)
        ≡ ok (allowed ++ map (λ x. x.address) entries)
  unfolding add_sources
  add_sources_lem allowed [] h k = ap ok (sym (append-nil allowed))
  add_sources_lem allowed (e ∷ entries) h k =
      let room : leb 16 (length allowed) ≡ false = lt→leb 16 (length allowed) (omega arith) in
      let longer : length (allowed ++ (e.address ∷ [])) ≡ length allowed + 1 =
        length-append allowed (e.address ∷ []) in
      let rest =
        add_sources_lem (allowed ++ (e.address ∷ [])) entries h.1 (omega (arith, longer)) in
      rw (room, h.0.valid)
        (rest ∙ ap ok (append_assoc allowed (e.address ∷ []) (map (λ x. x.address) entries)))

  parse_allowed_sources_lem :
      (entries : List Entry)
      → All (IsEntry inet_pton) entries
      → 1 ≤ length entries
      → length entries ≤ 16
      → parse_allowed_sources inet_pton (some (comma_separated entries))
        ≡ ok (map (λ x. x.address) entries)
  unfolding parse_allowed_sources
  parse_allowed_sources_lem [] h k l = absurd (omega arith)
  parse_allowed_sources_lem (e ∷ entries) h k l =
      let fits : leb 256 (length (comma_separated (e ∷ entries))) ≡ false =
        lt→leb 256 _ (omega (arith, length-comma_separated e entries h)) in
      let some_length : (suc (length (map (λ (x : Entry). x.address) entries)) == 0) ≡ false =
        ground arith in
      rw
        (
          fits,
          tokens_from-comma_separated e entries h,
          add_sources_lem [] (e ∷ entries) h (omega arith),
          some_length,
        )
        refl

listed-map :
    (entries : List Entry) (source : ℕ)
    → listed (map (λ x. x.address) entries) source ≡ has_address entries source
unfolding listed has_address
listed-map [] source = refl
listed-map (e ∷ entries) source = ground (arith, listed-map entries source)

pub source_allowed-listed :
    (r : Receiver) (source : ℕ)
    → 1 ≤ length r.allowed
    → source_allowed r source ≡ listed r.allowed source
unfolding source_allowed
source_allowed-listed r source h = ground arith

-- A list of 1 to 16 addresses of at most 15 characters each, with commas between them, is never
-- too long for the buffer and is accepted, and the receiver that has it then admits a source
-- exactly if it is one of those addresses.
pub source_allowed-parse_allowed_sources :
    (inet_pton : List ℕ → Option ℕ) (entries : List Entry) (r : Receiver) (source : ℕ)
    → All (IsEntry inet_pton) entries
    → 1 ≤ length entries
    → length entries ≤ 16
    → map_ok
        (λ allowed. source_allowed (record r { allowed = allowed }) source)
        (parse_allowed_sources inet_pton (some (comma_separated entries)))
      ≡ ok (has_address entries source)
source_allowed-parse_allowed_sources inet_pton [] r source h k l = absurd (omega arith)
source_allowed-parse_allowed_sources inet_pton (e ∷ entries) r source h k l =
    let allowed = map (λ x. x.address) (e ∷ entries) in
    rw (parse_allowed_sources_lem inet_pton (e ∷ entries) h k l) (
      ap ok (
        source_allowed-listed (record r { allowed = allowed }) source (omega arith)
        ∙ listed-map (e ∷ entries) source))
