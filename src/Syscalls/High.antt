-- ===== src/Syscalls/High.antt =====
-- os3k/syscall.c: the stubs of the system calls from 128.
use betawise.Base.{List, [], ◌∷◌}
use betawise.Syscalls.Stub.{Stub}

abbrev pub high_stubs : List Stub
high_stubs =
    (128, "SYS_A200")
    ∷ (129, "SYS_A204")
    ∷ (130, "SYS_A208")
    ∷ (131, "ClipboardSet")
    ∷ (132, "ClipboardGet")
    ∷ (133, "ClipboardClear")
    ∷ (134, "SYS_A218")
    ∷ (135, "SYS_A21C")
    ∷ (136, "SYS_A220")
    ∷ (137, "SYS_A224")
    ∷ (138, "SYS_A228")
    ∷ (139, "SYS_A22C")
    ∷ (140, "SYS_A230")
    ∷ (141, "SYS_A234")
    ∷ (142, "AppletFindByName")
    ∷ (143, "AppletFindById")
    ∷ (144, "AppletGetName")
    ∷ (145, "AppletSendMessage")
    ∷ (146, "SYS_A248")
    ∷ (147, "SYS_A24C")
    ∷ (148, "SYS_A250")
    ∷ (149, "SYS_A254")
    ∷ (150, "SYS_A258")
    ∷ (151, "SYS_A25C")
    ∷ (152, "SYS_A260")
    ∷ (153, "SYS_A264")
    ∷ (154, "SYS_A268")
    ∷ (155, "SYS_A26C")
    ∷ (156, "SYS_A270")
    ∷ (157, "SYS_A274")
    ∷ (158, "SYS_A278")
    ∷ (159, "SYS_A27C")
    ∷ (160, "SYS_A280")
    ∷ (161, "SYS_A284")
    ∷ (162, "SYS_A288")
    ∷ (163, "SYS_A28C")
    ∷ (164, "SYS_A290")
    ∷ (165, "SYS_A294")
    ∷ (166, "SYS_A298")
    ∷ (167, "SYS_A29C")
    ∷ (168, "SYS_A2A0")
    ∷ (169, "SYS_A2A4")
    ∷ (170, "SYS_A2A8")
    ∷ (171, "SYS_A2AC")
    ∷ (172, "SYS_A2B0")
    ∷ (173, "SYS_A2B4")
    ∷ (174, "_OS3K_CallSysInt")
    ∷ (175, "SYS_A2BC")
    ∷ (176, "SYS_A2C0")
    ∷ (177, "SYS_A2C4")
    ∷ (178, "SYS_A2C8")
    ∷ (179, "SYS_A2CC")
    ∷ (180, "SYS_A2D0")
    ∷ (181, "SYS_A2D4")
    ∷ (182, "SYS_A2D8")
    ∷ (183, "SYS_A2DC")
    ∷ (184, "SYS_A2E0")
    ∷ (185, "SYS_A2E4")
    ∷ (186, "SYS_A2E8")
    ∷ (187, "SYS_A2EC")
    ∷ (188, "SYS_A2F0")
    ∷ (189, "SYS_A2F4")
    ∷ (190, "SYS_A2F8")
    ∷ (191, "SYS_A2FC")
    ∷ (192, "SYS_A300")
    ∷ (193, "SYS_A304")
    ∷ (194, "SYS_A308")
    ∷ (203, "SYS_A32C")
    ∷ (204, "_OS3K_getchar")
    ∷ (205, "SYS_A334")
    ∷ (206, "abort")
    ∷ (207, "atoi")
    ∷ (208, "atol")
    ∷ (209, "sscanf")
    ∷ (210, "fgets")
    ∷ (211, "fprintf")
    ∷ (212, "_OS3K_fputc")
    ∷ (213, "fscanf")
    ∷ (214, "memchr")
    ∷ (215, "memcmp")
    ∷ (216, "memcpy")
    ∷ (217, "memmove")
    ∷ (218, "memset")
    ∷ (219, "printf")
    ∷ (220, "rand")
    ∷ (221, "scanf")
    ∷ (222, "sprintf")
    ∷ (223, "srand")
    ∷ (224, "strcat")
    ∷ (225, "strchr")
    ∷ (226, "strcmp")
    ∷ (227, "strcpy")
    ∷ (228, "strlen")
    ∷ (229, "strncat")
    ∷ (230, "strncmp")
    ∷ (231, "strncpy")
    ∷ (232, "strrchr")
    ∷ (233, "strstr")
    ∷ (234, "tolower")
    ∷ (235, "toupper")
    ∷ (236, "ungetc")
    ∷ (237, "SYS_A3B4")
    ∷ (238, "SYS_A3B8")
    ∷ (239, "SYS_A3BC")
    ∷ (240, "SYS_A3C0")
    ∷ (241, "SYS_A3C4")
    ∷ (242, "SYS_A3C8")
    ∷ (243, "SYS_A3CC")
    ∷ (244, "SYS_A3D0")
    ∷ (245, "SYS_A3D4")
    ∷ (246, "SYS_A3D8")
    ∷ (247, "SYS_A3DC")
    ∷ (248, "SYS_A3E0")
    ∷ (249, "SYS_A3E4")
    ∷ (250, "SYS_A3E8")
    ∷ (251, "SYS_A3EC")
    ∷ (252, "SYS_A3F0")
    ∷ (253, "SYS_A3F4")
    ∷ (254, "SYS_A3F8")
    ∷ (255, "SYS_A3FC")
    ∷ (256, "SYS_A400")
    ∷ (257, "SYS_A404")
    ∷ (258, "SYS_A408")
    ∷ (259, "SYS_A40C")
    ∷ (260, "SYS_A410")
    ∷ (261, "SYS_A414")
    ∷ (262, "SYS_A418")
    ∷ (263, "SYS_A41C")
    ∷ (264, "SYS_A420")
    ∷ (265, "SYS_A424")
    ∷ (266, "SYS_A428")
    ∷ (267, "SYS_A42C")
    ∷ (268, "SYS_A430")
    ∷ (269, "SYS_A434")
    ∷ (270, "SYS_A438")
    ∷ (271, "SYS_A43C")
    ∷ (272, "SYS_A440")
    ∷ (273, "SYS_A444")
    ∷ (274, "SYS_A448")
    ∷ (275, "SYS_A44C")
    ∷ (276, "SYS_A450")
    ∷ (277, "SYS_A454")
    ∷ (282, "SYS_A468")
    ∷ (283, "SYS_A46C")
    ∷ (284, "SYS_A470")
    ∷ []
