-- ===== src/Raid/Mdstat/Jumps.antt =====
-- src/synology_mcp/raid.py: the loops of `parse_mdstat`, which move an index past whole blocks.
use synology_mcp.Base.{
  ap, ℕ, zero, suc, ◌≤◌, String, ◌==◌, true, false, Option, none, some, List, [], ◌∷◌, ◌≡◌, refl,
  arith, Bool-cases, Option-cases, inl, inr, or-false, length, if◌then◌else◌, sym, ◌∙◌,
}
use synology_mcp.Base.Text
use synology_mcp.Errors.{Result, ok, err, ◌>>=◌}
use synology_mcp.Platform.{Platform}
use synology_mcp.Raid.Mdstat.{
  Device, Progress, no_progress, read_members, read_sub, ends_body, read_body, device_of,
  level_and_tokens, parse_lines, parse_mdstat,
}
use synology_mcp.Raid.Mdstat.Lines.{Header, header_match}

module _ ⦃P : Platform⦄ where
  -- the lines up to a blank one or a header
  unfoldable pub body : List String → List String
  body [] = []
  body (line ∷ lines) =
      let rest = body lines in if ends_body (Text.strip line) then [] else Text.strip line ∷ rest

  -- what these lines tell
  unfoldable pub read_all : Progress → List String → Result Progress
  read_all p [] = ok p
  read_all p (sub ∷ subs) = do p' ← read_sub p sub; read_all p' subs

  -- one device for each header, with the lines of its body, by recursion on the lines
  unfoldable pub devices_of : List String → Result (List Device)
  unfolding body read_all
  devices_of [] = ok []
  devices_of (line ∷ lines) =
      let later = devices_of lines in
      elim (header_match (Text.strip line)) [
        | none ↦ later
        | some h ↦ (do
          members ← read_members (level_and_tokens h).1
          p ← read_all no_progress (body lines)
          others ← later
          ok (device_of h members p ∷ others))
      ]

  bind_cong :
      {A B : Type 0} (r : Result A) (f g : A → Result B)
      → ((a : A) → f a ≡ g a)
      → (r >>= f) ≡ (r >>= g)
  bind_cong (ok a) f g h = h a
  bind_cong (err e) f g h = refl

  is_no_header : (o : Option Header) → (elim o [ none ↦ false | some h ↦ true ]) ≡ false → o ≡ none
  is_no_header none h = refl
  is_no_header (some x) h = ground arith

  devices_of-skip :
      (line : String) (lines : List String)
      → ends_body (Text.strip line) ≡ false
      → devices_of (line ∷ lines) ≡ devices_of lines
  unfolding devices_of ends_body
  devices_of-skip line lines h =
      rw
        (
          devices_of,
          is_no_header (header_match (Text.strip line))
              (or-false (Text.strip line == "")
                (elim (header_match (Text.strip line)) [ none ↦ false | some h ↦ true ]) h).1,
        )
        refl

  -- the inner loop reads the body, and what is left tells of the same devices
  read_body_lem :
      {B : Type 0} (p : Progress) (lines : List String) (k : Progress → List String → Result B)
      (k' : Progress → Result B)
      → ((p' : Progress) (rest : List String)
          → length rest ≤ length lines
          → devices_of rest ≡ devices_of lines
          → k p' rest ≡ k' p')
      → (read_body p lines >>= λ r. k r.0 r.1) ≡ (read_all p (body lines) >>= k')
  unfolding read_body body read_all
  read_body_lem p [] k k' h = h p [] (omega arith) refl
  read_body_lem {B = B} p (line ∷ lines) k k' h = elim (Bool-cases (ends_body (Text.strip line))) [
    | inl e ↦ rw (read_body, body, e) (h p (line ∷ lines) (omega arith) refl)
    | inr e ↦
        rw (read_body, body, e)
          (go (read_sub p (Text.strip line)) (λ p'.
            read_body_lem p' lines k k' (λ q rest le same.
              h q rest (omega arith) (same ∙ sym (devices_of-skip line lines e)))))
  ]
    where
      go :
          (r : Result Progress)
          → ((p' : Progress)
              → (read_body p' lines >>= λ r. k r.0 r.1) ≡ (read_all p' (body lines) >>= k'))
          → ((r >>= λ p'. read_body p' lines) >>= λ r. k r.0 r.1)
            ≡ ((r >>= λ p'. read_all p' (body lines)) >>= k')
      go (ok p') same = same p'
      go (err x) same = refl

  parse_lines_lem :
      (fuel : ℕ) (lines : List String)
      → length lines ≤ fuel
      → parse_lines fuel lines ≡ devices_of lines
  unfolding parse_lines devices_of
  parse_lines_lem zero [] h = refl
  parse_lines_lem zero (line ∷ lines) h = ground arith
  parse_lines_lem (suc fuel) [] h = refl
  parse_lines_lem (suc fuel) (line ∷ lines) h =
      elim (Option-cases (header_match (Text.strip line))) [
        | inl e ↦ rw (parse_lines, devices_of, e) (parse_lines_lem fuel lines (omega arith))
        | inr (hd, e) ↦
            rw (parse_lines, devices_of, e)
              (bind_cong (read_members (level_and_tokens hd).1) _ _ (λ members.
                read_body_lem no_progress lines _ _ (λ p rest le same.
                  ap (λ r. r >>= λ others. ok (device_of hd members p ∷ others))
                    (parse_lines_lem fuel rest (omega arith) ∙ same))))
      ]

  -- The parser of /proc/mdstat, whose loops move one index past the block of each device, returns
  -- what the recursion on the lines gives that reads one device for each header, from the lines
  -- up to the next blank line or header, errors included: no header is passed over and no line is
  -- read for two devices.
  pub parse_mdstat_lem : (s : String) → parse_mdstat s ≡ devices_of (Text.splitlines s)
  unfolding parse_mdstat
  parse_mdstat_lem s =
      parse_lines_lem (length (Text.splitlines s)) (Text.splitlines s) (omega arith)
