-- ===== src/Auth/Store.antt =====
-- Token files: what is written is read back until it is removed.
use inter_agent_bus.Base.{
  Text, [], all, ap, arith, false, none, refl, some, true, ◌==◌, ◌∙◌, ◌∷◌, ◌≡◌,
}
use inter_agent_bus.Base.Maps.{Map, get-set_self, get-set_ne, get-delete_self, get-delete_ne}
use inter_agent_bus.Strings.{is_space}
use inter_agent_bus.Strings.Runs.{is_open_start, is_open_end}
use inter_agent_bus.Strings.Runs.Laws.{strip-fixed}
use inter_agent_bus.Ids.{is_hex}
use inter_agent_bus.Auth.{trimmed, token_path_for, write_token, read_token, remove_token}

is_hex-is_open : (t : Text) → all is_hex t ≡ true → is_open_start is_space t ≡ true
unfolding is_open_start is_hex is_space
is_hex-is_open [] h = refl
is_hex-is_open (c ∷ t) h = ground arith

is_hex-is_open_end : (t : Text) → all is_hex t ≡ true → is_open_end is_space t ≡ true
unfolding is_open_end is_hex is_space
is_hex-is_open_end [] h = refl
is_hex-is_open_end (c ∷ []) h = ground arith
is_hex-is_open_end (c ∷ d ∷ t) h = is_hex-is_open_end (d ∷ t) (ground arith)

trimmed-hex : (t : Text) → all is_hex t ≡ true → (t == []) ≡ false → trimmed (some t) ≡ some t
unfolding trimmed
trimmed-hex t h k =
    rw (strip-fixed is_space t (is_hex-is_open t h) (is_hex-is_open_end t h), k) refl

-- A token of hexadecimal digits that is written for a session is what is read for it, and nothing
-- is read once it is removed; neither changes what is read for a session with another file.
pub read_token-write :
    (dir id other token : Text) (files : Map Text)
    → all is_hex token ≡ true
    → (token == []) ≡ false
    → (token_path_for dir id == token_path_for dir other) ≡ false
    → (read_token dir id (write_token dir id token files) ≡ some token)
      × (read_token dir id (remove_token dir id files) ≡ none)
      × (read_token dir other (write_token dir id token files) ≡ read_token dir other files)
      × (read_token dir other (remove_token dir id files) ≡ read_token dir other files)
unfolding read_token write_token remove_token
read_token-write dir id other token files h k ne =
    let here = token_path_for dir id in
    let there = token_path_for dir other in
    (
      ap trimmed (get-set_self here token files) ∙ trimmed-hex token h k,
      ap trimmed (get-delete_self here files) ∙ (unfold trimmed in refl),
      ap trimmed (get-set_ne here there token files ne),
      ap trimmed (get-delete_ne here there files ne),
    )
