-- ===== src/RuntimeUnits.antt =====
-- The units that the runtime provides, and what they export (src/runtime_units.cc).
pub mod Lookup
use tp2cc.Prelude.{
  Bool, Bytes, List, Option, [], codes, false, if◌then◌else◌, none, same, some, true, ℕ, ◌∷◌,
}
use Prim.Native.String.{String}
use tp2cc.Text.{lower}

-- `RuntimeUnitExportKind`
pub data RuntimeUnitExportKind : Type 0 where
  type_export proc_export var_export const_export : RuntimeUnitExportKind

-- `RuntimeUnitExport`; `param_count` is `none` for the -1 of the constructor without a count.
pub record RuntimeUnitExport : Type 0 where
  pub kind : RuntimeUnitExportKind
  pub name : Bytes
  pub param_count : Option ℕ
  pub is_function : Bool
  pub return_type_name : Bytes

-- `RuntimeUnitModel`
pub record RuntimeUnitModel : Type 0 where
  pub name : Bytes
  pub exports : List RuntimeUnitExport

abbrev pub export_of : RuntimeUnitExportKind → String → RuntimeUnitExport
export_of k n = record {
  kind = k;
  name = codes n;
  param_count = none;
  is_function = true;
  return_type_name = [];
}

abbrev pub function_of : String → ℕ → String → RuntimeUnitExport
function_of n params ret = record {
  kind = proc_export;
  name = codes n;
  param_count = some params;
  is_function = true;
  return_type_name = codes ret;
}

unfoldable pub dos_exports : List RuntimeUnitExport
dos_exports =
    export_of type_export "DateTime"
    ∷ export_of type_export "DirStr"
    ∷ export_of type_export "NameStr"
    ∷ export_of type_export "ExtStr"
    ∷ export_of type_export "PathStr"
    ∷ export_of type_export "SearchRec"
    ∷ export_of type_export "TSearchRec"
    ∷ export_of const_export "ReadOnly"
    ∷ export_of const_export "Hidden"
    ∷ export_of const_export "SysFile"
    ∷ export_of const_export "VolumeID"
    ∷ export_of const_export "Directory"
    ∷ export_of const_export "Archive"
    ∷ export_of const_export "AnyFile"
    ∷ export_of var_export "DosError"
    ∷ export_of proc_export "ChDir"
    ∷ export_of proc_export "DiskSize"
    ∷ export_of proc_export "DosExitCode"
    ∷ export_of proc_export "Exec"
    ∷ export_of proc_export "EpochToLocal"
    ∷ export_of proc_export "FExpand"
    ∷ export_of proc_export "FindClose"
    ∷ export_of proc_export "FindFirst"
    ∷ export_of proc_export "FindNext"
    ∷ export_of proc_export "FSearch"
    ∷ export_of proc_export "FSplit"
    ∷ export_of proc_export "GetDir"
    ∷ export_of proc_export "GetDate"
    ∷ export_of proc_export "GetEnv"
    ∷ export_of proc_export "GetFAttr"
    ∷ export_of proc_export "GetFTime"
    ∷ export_of proc_export "GetTime"
    ∷ export_of proc_export "MkDir"
    ∷ export_of proc_export "PackTime"
    ∷ export_of proc_export "RmDir"
    ∷ export_of proc_export "SetFTime"
    ∷ export_of proc_export "UnpackTime"
    ∷ []

unfoldable pub linux_exports : List RuntimeUnitExport
linux_exports = function_of "GetEnv" 1 "pchar" ∷ function_of "Shell" 1 "longint" ∷ []

unfoldable pub unix_exports : List RuntimeUnitExport
unix_exports =
    function_of "GetEnv" 1 "pchar"
    ∷ function_of "Shell" 1 "longint"
    ∷ function_of "FpSystem" 1 "longint"
    ∷ []

unfoldable pub base_unix_exports : List RuntimeUnitExport
base_unix_exports = function_of "FpGetEnv" 1 "pchar" ∷ function_of "FpChmod" 2 "longint" ∷ []

unfoldable pub strings_exports : List RuntimeUnitExport
strings_exports =
    export_of proc_export "StrLen"
    ∷ export_of proc_export "StrPCopy"
    ∷ export_of proc_export "StrPas"
    ∷ export_of proc_export "StrComp"
    ∷ export_of proc_export "StrRScan"
    ∷ export_of proc_export "StrNew"
    ∷ export_of proc_export "StrDispose"
    ∷ []

unfoldable pub sysutils_exports : List RuntimeUnitExport
sysutils_exports =
    export_of type_export "HRESULT"
    ∷ export_of type_export "PAnsiString"
    ∷ export_of type_export "PDWord"
    ∷ export_of type_export "PLongWord"
    ∷ export_of type_export "PQWord"
    ∷ export_of type_export "PShortString"
    ∷ export_of type_export "TDateTime"
    ∷ export_of type_export "TExecuteFlags"
    ∷ export_of type_export "TSysCharSet"
    ∷ export_of type_export "TSystemTime"
    ∷ export_of type_export "Exception"
    ∷ export_of type_export "EExternal"
    ∷ export_of type_export "EIntError"
    ∷ export_of type_export "EInOutError"
    ∷ export_of type_export "EHeapMemoryError"
    ∷ export_of type_export "EHeapException"
    ∷ export_of type_export "EOutOfMemory"
    ∷ export_of type_export "EIntOverflow"
    ∷ export_of type_export "ERangeError"
    ∷ export_of type_export "EDivByZero"
    ∷ export_of type_export "EOSError"
    ∷ export_of proc_export "AnsiCompareFileName"
    ∷ export_of proc_export "ChangeFileExt"
    ∷ export_of proc_export "CompareText"
    ∷ export_of proc_export "Date"
    ∷ export_of proc_export "DecodeDate"
    ∷ export_of proc_export "DecodeTime"
    ∷ export_of proc_export "DirectoryExists"
    ∷ export_of proc_export "ExecuteProcess"
    ∷ export_of proc_export "ExpandFileName"
    ∷ export_of proc_export "FileAge"
    ∷ export_of proc_export "FileDateToDateTime"
    ∷ export_of proc_export "FileExists"
    ∷ export_of proc_export "FileGetDate"
    ∷ export_of proc_export "FileSetDate"
    ∷ export_of proc_export "GetEnvironmentVariable"
    ∷ export_of proc_export "GetFileHandle"
    ∷ export_of proc_export "GetLocalTime"
    ∷ export_of proc_export "IntToStr"
    ∷ export_of proc_export "RenameFile"
    ∷ export_of proc_export "SetDirSeparators"
    ∷ export_of proc_export "StrPas"
    ∷ export_of proc_export "StringOfChar"
    ∷ export_of proc_export "Time"
    ∷ export_of proc_export "Trim"
    ∷ []

unfoldable pub models : List RuntimeUnitModel
models =
    record { name = codes "baseunix"; exports = base_unix_exports }
    ∷ record { name = codes "dos"; exports = dos_exports }
    ∷ record { name = codes "linux"; exports = linux_exports }
    ∷ record { name = codes "math"; exports = [] }
    ∷ record { name = codes "strings"; exports = strings_exports }
    ∷ record { name = codes "sysutils"; exports = sysutils_exports }
    ∷ record { name = codes "unix"; exports = unix_exports }
    ∷ []

-- The loop of `runtime_unit_model`
unfoldable pub first_model : Bytes → List RuntimeUnitModel → Option RuntimeUnitModel
first_model low [] = none
first_model low (m ∷ ms) = if same low m.name then some m else first_model low ms

unfoldable pub runtime_unit_model : Bytes → Option RuntimeUnitModel
runtime_unit_model name = first_model (lower name) models

-- The test against `nullptr`
abbrev is_model : Option RuntimeUnitModel → Bool
is_model none = false
is_model (some m) = true

unfoldable pub has_runtime_unit_model : Bytes → Bool
has_runtime_unit_model name = is_model (runtime_unit_model name)
