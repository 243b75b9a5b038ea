-- ===== src/Files.antt =====
-- The file system as the program sees it, and `atomicWrite` (internal/state/store.go,
-- internal/operations/store.go), whose text is the same in both packages.
pub mod Atomic
use srv_deployment.Prelude.{
  Bool, true, false, not, ◌&&◌, Option, none, some, [], Text, if◌then◌else◌,
}
use srv_deployment.Dict.{Dict, get, put, remove}

-- What stands at a path: the bytes of a file, or something that cannot be read as a file.
pub data Node : Type 0 where
  file : Text → Node
  denied : Node

abbrev pub Files : Type 0
Files = Dict Node

-- `os.ReadFile`: the content, `os.ErrNotExist`, or another error.
pub data Read : Type 0 where
  content : Text → Read
  not_exist : Read
  unreadable : Read

abbrev pub as_read : Option Node → Read
as_read none = not_exist
as_read (some (file b)) = content b
as_read (some denied) = unreadable

unfoldable pub read_file : Files → Text → Read
read_file fs path = as_read (get fs path)

-- How the calls of one `atomicWrite` end. `written` is what a failing `Write` leaves in the file, and
-- `removed` says whether the deferred `os.Remove` succeeds where there is a file.
pub record Outcome : Type 0 where
  pub temp : Text
  pub created : Bool
  pub chmodded : Bool
  pub written_all : Bool
  pub written : Text
  pub synced : Bool
  pub closed : Bool
  pub renamed : Bool
  pub removed : Bool

abbrev pub all_well : Outcome → Bool
all_well o = o.created && o.chmodded && o.written_all && o.synced && o.closed && o.renamed

-- `os.Rename(name, path)`
abbrev moved : Files → Text → Text → Option Node → Files
moved fs name path none = fs
moved fs name path (some node) = put (remove fs name) path node

unfoldable pub rename : Files → Text → Text → Files
rename fs name path = moved fs name path (get fs name)

-- `defer os.Remove(name)`, whose error is ignored; a file that is gone cannot be removed anyway.
abbrev dropped : Outcome → Files → Files
dropped o fs = if o.removed then remove fs o.temp else fs

-- `true` for a nil error. The deferred removal runs on each way out after `CreateTemp`.
unfoldable pub atomic_write : Outcome → Text → Text → Files → Bool × Files
unfolding rename
atomic_write o path bytes fs =
    if not o.created
    then (false, fs)
    else let started = put fs o.temp (file []) in
      if not o.chmodded
      then (false, dropped o started)
      else if not o.written_all
      then (false, dropped o (put started o.temp (file o.written)))
      else let full = put started o.temp (file bytes) in
        if not o.synced
        then (false, dropped o full)
        else if not o.closed
        then (false, dropped o full)
        else if not o.renamed
        then (false, dropped o full)
        else (true, dropped o (rename full o.temp path))
