-- ===== src/CodeBuild/Buildspec.antt =====
-- The buildspec of build.go, whose lines the constants of that file complete.
use formae_plugin_aws.Prelude.{List, [], ◌∷◌, ◌++◌}
use formae_plugin_aws.Text.{Text, codes}

unfoldable lines : List Text
lines =
    codes "version: 0.2"
    ∷ codes "env:"
    ∷ codes "  exported-variables:"
    ∷ codes "    - IMAGE_DIGEST"
    ∷ codes "    - IMAGE_REF"
    ∷ codes "    - IMAGE_URI"
    ∷ codes "phases:"
    ∷ codes "  pre_build:"
    ∷ codes "    commands:"
    ∷ codes "      - printf '%s' \"$DOCKERFILE_B64\" | base64 -d > Dockerfile"
    ∷ codes "      - printf '%s' \"$BUILD_ARGS_B64\" | base64 -d > build_args.env"
    ∷ codes "      - mkdir -p build-context"
    ∷ codes
        "      - aws ecr get-login-password --region \"$AWS_REGION\" | docker login --username AWS --password-stdin \"$ECR_REGISTRY\""
    ∷ codes "  build:"
    ∷ codes "    commands:"
    ∷ codes "      - |"
    ∷ codes "        set --"
    ∷ codes "        while IFS= read -r line; do"
    ∷ codes "          [ -n \"$line\" ] && set -- \"$@\" --build-arg \"$line\""
    ∷ codes "        done < build_args.env"
    ∷ codes
        "        docker build --platform linux/amd64 \"$@\" -f Dockerfile -t \"$IMAGE_URI\" build-context"
    ∷ codes "      - docker push \"$IMAGE_URI\""
    ∷ codes "  post_build:"
    ∷ codes "    commands:"
    ∷ codes
        "      - export IMAGE_DIGEST=\"$(docker inspect --format='{{index .RepoDigests 0}}' \"$IMAGE_URI\" | cut -d@ -f2)\""
    ∷ codes "      - export IMAGE_REF=\"$ECR_REPOSITORY_URI@$IMAGE_DIGEST\""
    ∷ codes "      - export IMAGE_URI=\"$IMAGE_URI\""
    ∷ []

abbrev spelled : List Text → Text
spelled [] = []
spelled (l ∷ ls) = l ++ (10 ∷ spelled ls)

unfoldable pub generate_buildspec : Text
unfolding lines
generate_buildspec = spelled lines
