-- ===== src/Syscalls/Low.antt =====
-- os3k/syscall.c: the stubs of the system calls below 128.
use betawise.Base.{List, [], ◌∷◌}
use betawise.Syscalls.Stub.{Stub}

abbrev pub low_stubs : List Stub
low_stubs =
    (0, "_OS3K_ClearScreen")
    ∷ (1, "_OS3K_SetCursor")
    ∷ (2, "GetCursorPos")
    ∷ (3, "PutStringCentered")
    ∷ (4, "PutChar")
    ∷ (5, "PutStringRaw")
    ∷ (6, "SetCursorMode")
    ∷ (7, "GetCursorMode")
    ∷ (8, "ClearRowCols")
    ∷ (9, "ClearRows")
    ∷ (10, "SYS_A028")
    ∷ (11, "SYS_A02C")
    ∷ (12, "PutString")
    ∷ (13, "SYS_A034")
    ∷ (14, "SYS_A038")
    ∷ (15, "SYS_A03C")
    ∷ (18, "DrawBitmap")
    ∷ (19, "RasterOp")
    ∷ (27, "SYS_A06C")
    ∷ (28, "SYS_A070")
    ∷ (29, "SYS_A074")
    ∷ (30, "SYS_A078")
    ∷ (31, "SYS_A07C")
    ∷ (32, "ProgressBar")
    ∷ (33, "TextBox")
    ∷ (34, "WaitForKey")
    ∷ (35, "StringCompare")
    ∷ (36, "DisplayMessage")
    ∷ (37, "GetKey")
    ∷ (38, "DrainKeyBuffer")
    ∷ (39, "IsKeyReady")
    ∷ (40, "GetModifierKeys")
    ∷ (41, "ScanKeyboard")
    ∷ (42, "QueueKey")
    ∷ (43, "SetModifierKeys")
    ∷ (44, "IsKeyDownNow")
    ∷ (45, "SYS_A0B4")
    ∷ (46, "SYS_A0B8")
    ∷ (47, "SYS_A0BC")
    ∷ (48, "SYS_A0C0")
    ∷ (49, "SYS_A0C4")
    ∷ (50, "SYS_A0C8")
    ∷ (51, "SYS_A0CC")
    ∷ (52, "SYS_A0D0")
    ∷ (53, "SleepCentiseconds")
    ∷ (54, "SleepCentimilliseconds")
    ∷ (55, "GetUptimeSeconds")
    ∷ (56, "GetUptimeCentiseconds")
    ∷ (57, "GetUptimeMilliseconds")
    ∷ (58, "SYS_A0E8")
    ∷ (59, "SYS_A0EC")
    ∷ (60, "DialogInit")
    ∷ (61, "DialogAddItem")
    ∷ (62, "DialogAddExitKey")
    ∷ (63, "DialogSetChoice")
    ∷ (64, "DialogDraw")
    ∷ (65, "DialogRun")
    ∷ (66, "DialogGetChoice")
    ∷ (67, "DialogGetChoiceId")
    ∷ (68, "DialogGetItemId")
    ∷ (69, "SYS_A114")
    ∷ (70, "SYS_A118")
    ∷ (71, "SYS_A11C")
    ∷ (72, "SYS_A120")
    ∷ (73, "SYS_A124")
    ∷ (74, "SYS_A128")
    ∷ (75, "SYS_A12C")
    ∷ (76, "SYS_A130")
    ∷ (77, "SYS_A134")
    ∷ (78, "ShowBatteryPercentage")
    ∷ (79, "SYS_A13C")
    ∷ (80, "SYS_A140")
    ∷ (81, "SYS_A144")
    ∷ (82, "SYS_A148")
    ∷ (83, "SYS_A14C")
    ∷ (84, "SYS_A150")
    ∷ (85, "SYS_A154")
    ∷ (86, "SYS_A158")
    ∷ (87, "SYS_A15C")
    ∷ (88, "SYS_A160")
    ∷ (89, "_OS3K_TranslateKeyToChar")
    ∷ (90, "SYS_A168")
    ∷ (91, "SYS_A16C")
    ∷ (92, "SYS_A170")
    ∷ (93, "SYS_A174")
    ∷ (94, "SYS_A178")
    ∷ (95, "SYS_A17C")
    ∷ (96, "SYS_A180")
    ∷ (97, "SYS_A184")
    ∷ (98, "SYS_A188")
    ∷ (99, "SYS_A18C")
    ∷ (100, "SYS_A190")
    ∷ (101, "SYS_A194")
    ∷ (102, "FileWriteBuffer")
    ∷ (103, "FileReadBuffer")
    ∷ (104, "FileSmashFile")
    ∷ (105, "FileDeleteChars")
    ∷ (106, "FileGetCurrentFile")
    ∷ (107, "SYS_A1AC")
    ∷ (108, "SYS_A1B0")
    ∷ (109, "SYS_A1B4")
    ∷ (110, "SYS_A1B8")
    ∷ (111, "SYS_A1BC")
    ∷ (112, "FileSetFolder")
    ∷ (113, "FileGetFileInfo")
    ∷ (114, "FileOpen")
    ∷ (115, "FileClose")
    ∷ (116, "SYS_A1D0")
    ∷ (117, "SYS_A1D4")
    ∷ (118, "SYS_A1D8")
    ∷ (119, "SYS_A1DC")
    ∷ (120, "PasswordVerifyFileDialog")
    ∷ (121, "PasswordChangeFileDialog")
    ∷ (122, "SYS_A1E8")
    ∷ (123, "SYS_A1EC")
    ∷ (124, "SYS_A1F0")
    ∷ (125, "SYS_A1F4")
    ∷ (126, "SYS_A1F8")
    ∷ (127, "SYS_A1FC")
    ∷ []
