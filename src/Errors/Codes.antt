-- ===== src/Errors/Codes.antt =====
-- The error codes of include/error_common.h that the models return.
use libpulp.Base.{ℕ}

abbrev pub enone : ℕ
enone = 0

abbrev pub eunknown : ℕ
eunknown = 256

abbrev pub ebuildid : ℕ
ebuildid = 257

abbrev pub ethrdattach : ℕ
ethrdattach = 264

abbrev pub ethrddettach : ℕ
ethrddettach = 265

abbrev pub einvalidulp : ℕ
einvalidulp = 266

abbrev pub enooldfunc : ℕ
enooldfunc = 267

abbrev pub enonewfunc : ℕ
enonewfunc = 268

abbrev pub enometa : ℕ
enometa = 269

abbrev pub estate : ℕ
estate = 270

abbrev pub enotapplied : ℕ
enotapplied = 272

abbrev pub edepend : ℕ
edepend = 273

abbrev pub enoaddress : ℕ
enoaddress = 274

abbrev pub eapplied : ℕ
eapplied = 275

abbrev pub enotargetlib : ℕ
enotargetlib = 276

abbrev pub enopatchable : ℕ
enopatchable = 278

abbrev pub ewildnomatch : ℕ
ewildnomatch = 279

abbrev pub eusrblocked : ℕ
eusrblocked = 280

abbrev pub eoldlibpulp : ℕ
eoldlibpulp = 281

abbrev pub enopatch : ℕ
enopatch = 284

abbrev pub einsnq : ℕ
einsnq = 285

abbrev pub eoldulp : ℕ
eoldulp = 286

abbrev pub edlopen : ℕ
edlopen = 287

abbrev pub enolibdl : ℕ
enolibdl = 288

abbrev pub enolibc : ℕ
enolibc = 289

-- errno values
abbrev pub eagain : ℕ
eagain = 11

abbrev pub esrch : ℕ
esrch = 3

abbrev pub enomem : ℕ
enomem = 12

abbrev pub eoverflow : ℕ
eoverflow = 75

abbrev pub etargethook : ℕ
etargethook = 258

abbrev pub ehooknotrun : ℕ
ehooknotrun = 277

abbrev pub etime : ℕ
etime = 62

abbrev pub einval : ℕ
einval = 22

abbrev pub enoent : ℕ
enoent = 2
