-- ===== src/Daemon/Paths.antt =====
-- crates/ahp-daemon/src/net_receiver.rs: where a transfer may write. A path of `std::path` on Unix is
-- its components, as `Path::components` gives them; a name is its bytes.
pub mod Confine
use favonius.Base.{
  ℕ, Bool, true, false, List, [], ◌∷◌, ◌++◌, same_bytes, if◌then◌else◌, Outcome, ok, err, panic,
  fail_if, ◌>>=◌, ◌>>◌,
}

pub data Component : Type 0 where
  root_dir : Component
  cur_dir : Component
  parent_dir : Component
  normal : List ℕ → Component

abbrev pub Components : Type 0
Components = List Component

-- `PathBuf::push` of one component: an absolute path replaces what is there.
abbrev pub push : Components → Component → Components
push out root_dir = root_dir ∷ []
push out cur_dir = out ++ cur_dir ∷ []
push out parent_dir = out ++ parent_dir ∷ []
push out (normal name) = out ++ normal name ∷ []

-- `PathBuf::pop`: the root and the empty path stay.
abbrev pub pop : Components → Components
pop [] = []
pop (root_dir ∷ []) = root_dir ∷ []
pop (cur_dir ∷ []) = []
pop (parent_dir ∷ []) = []
pop (normal name ∷ []) = []
pop (c ∷ d ∷ rest) = c ∷ pop (d ∷ rest)

-- `Path::join`.
abbrev pub join : Components → Components → Components
join root (root_dir ∷ rest) = root_dir ∷ rest
join root dest = root ++ dest

abbrev pub same_component : Component → Component → Bool
same_component root_dir root_dir = true
same_component cur_dir cur_dir = true
same_component parent_dir parent_dir = true
same_component (normal a) (normal b) = same_bytes a b
same_component c d = false

-- `Path::starts_with`.
abbrev pub starts_with : Components → Components → Bool
starts_with path [] = true
starts_with [] (c ∷ base) = false
starts_with (d ∷ path) (c ∷ base) =
    let rest = starts_with path base in if same_component d c then rest else false

-- The body of the loop.
abbrev pub normalize_step : Components → Component → Components
normalize_step out root_dir = push out root_dir
normalize_step out cur_dir = out
normalize_step out parent_dir = pop out
normalize_step out (normal name) = push out (normal name)

unfoldable pub normalize_from : Components → Components → Components
normalize_from out [] = out
normalize_from out (comp ∷ path) = normalize_from (normalize_step out comp) path

unfoldable pub lexical_normalize : Components → Components
lexical_normalize path = normalize_from [] path

-- The error is the message for the log.
pub data EscapesRoot : Type 0 where
  escapes_root : EscapesRoot

unfoldable pub confine_dest_path : Components → Components → Outcome EscapesRoot Components
confine_dest_path root dest = do
  let joined = lexical_normalize (join root dest)
  fail_if (if starts_with joined root then false else true) escapes_root
  ok joined

-- The first root that accepts the path wins.
abbrev pub first_ok :
    Outcome EscapesRoot Components → Outcome EscapesRoot Components → Outcome EscapesRoot Components
first_ok (ok path) rest = ok path
first_ok (err e) rest = rest
first_ok panic rest = panic

unfoldable pub confine_dest_path_any : List Components → Components → Outcome EscapesRoot Components
confine_dest_path_any [] dest = err escapes_root
confine_dest_path_any (root ∷ roots) dest =
    first_ok (confine_dest_path root dest) (confine_dest_path_any roots dest)
