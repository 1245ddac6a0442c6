-- ===== src/Client/Path.antt =====
-- The path that the client opens: the directory of $PWD and the name of the script.
use sisop_2012_2c.Shared.{
  ◌+◌, ◌≡◌, refl, false, List, [], ◌∷◌, ◌++◌, some, CString, codes, arith, length, length-append,
  ge→ltb, le→leb,
}
use sisop_2012_2c.Shared.Outcome.{ok}
use sisop_2012_2c.Client.{starts_pwd, find_pwd, obtener_path_del_script}

-- No entry begins with PWD.
abbrev pub AllOther : List CString → Type 0
AllOther [] = Unit
AllOther (entry ∷ env) = (starts_pwd entry ≡ false) × AllOther env

find_pwd-first :
    (before : List CString) (dir : CString) (behind : List CString)
    → AllOther before
    → find_pwd (before ++ (codes "PWD=" ++ dir) ∷ behind) ≡ some (codes "PWD=" ++ dir)
unfolding find_pwd
find_pwd-first [] dir behind h = refl
find_pwd-first (entry ∷ before) dir behind (h, k) =
    rw (h, find_pwd) (find_pwd-first before dir behind k)

-- Where the first entry of the environment that begins with PWD is PWD=dir, and the program has an
-- argument, the path is dir/name of that argument, and fits its buffer.
pub obtener_path_del_script-first :
    (before : List CString) (dir : CString) (behind : List CString) (program name : CString)
    (args : List CString)
    → AllOther before
    → obtener_path_del_script (program ∷ name ∷ args) (before ++ (codes "PWD=" ++ dir) ∷ behind)
      ≡ ok (dir ++ (b'/' ∷ name))
unfolding obtener_path_del_script
obtener_path_del_script-first before dir behind program name args h =
    rw (find_pwd-first before dir behind h, obtener_path_del_script)
      (rw (ge→ltb (length (codes "PWD=" ++ dir)) 4 (omega arith)) (
        rw
          (le→leb (length (dir ++ (b'/' ∷ name)) + 1) (length (codes "PWD=" ++ dir) + length name)
            (omega (arith, length-append dir (b'/' ∷ name))))
          refl))
